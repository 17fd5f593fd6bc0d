-- ===== src/Tests/Nested.antt =====
-- kernel/x86.c at concrete inputs.
use minima.Base.{◌≡◌, Bool, true, false, some}
use minima.Cli.Nesting.{Sections, nothing, section, run, outside, run-outside}

-- two sections, the first with one inside
abbrev two_sections : Sections
two_sections = section (section nothing nothing) (section nothing nothing)

run-outside_example :
    (e' : Bool) × (run two_sections (outside true false 0 false) ≡ some (outside true e' 0 false))
run-outside_example = run-outside two_sections true false 0 false
