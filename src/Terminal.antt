-- ===== src/Terminal.antt =====
-- kernel/terminal.c: the text screen. The position of the hardware cursor, which is only written to
-- ports, is left out; what is sent to the serial port is a list of bytes.
pub mod Cursor
use minima.Base.{
  ℕ, zero, suc, ◌+◌, ◌-◌, ◌*◌, ◌%◌, Bool, true, false, Option, none, some, List, [], ◌∷◌, ◌++◌, ltb,
  ◌==◌, if◌then◌else◌, get_or, set,
}

-- `TERM_WIDTH`, `TERM_HEIGH`, `g_row`, `g_col`, `g_cur_color` and `g_buf`
pub record Term : Type 0 where
  pub width : ℕ
  pub height : ℕ
  pub row : ℕ
  pub col : ℕ
  pub cur_color : ℕ
  pub buf : List ℕ
  pub serial_out : List ℕ

-- `vga_entry`
abbrev pub vga_entry : ℕ → ℕ → ℕ
vga_entry uc color = uc % 256 + color * 256

-- a blank in the color
abbrev pub blank : ℕ → ℕ
blank color = vga_entry 32 color

-- The two nested loops of `terminal_clear`, with the columns and rows that are left.
unfoldable pub clear_cells : ℕ → ℕ → ℕ → ℕ → ℕ → List ℕ → List ℕ
clear_cells w color y zero x buf = buf
clear_cells w color y (suc n) x buf =
    clear_cells w color y n (suc x) (set buf (y * w + x) (blank color))

unfoldable pub clear_rows : ℕ → ℕ → ℕ → ℕ → List ℕ → List ℕ
unfolding clear_cells
clear_rows w color zero y buf = buf
clear_rows w color (suc n) y buf = clear_rows w color n (suc y) (clear_cells w color y w 0 buf)

-- `dark_mode`: white, 15, on black.
abbrev pub dark_mode : ℕ
dark_mode = 15

unfoldable pub terminal_clear : Term → Term
unfolding clear_rows
terminal_clear t = record t {
  row = 0;
  col = 0;
  cur_color = dark_mode;
  buf = clear_rows t.width dark_mode t.height 0 t.buf;
}

-- The loops of `terminal_scroll`.
unfoldable pub scroll_cells : ℕ → ℕ → ℕ → ℕ → ℕ → ℕ → List ℕ → List ℕ
scroll_cells w h color y zero x buf = buf
scroll_cells w h color y (suc n) x buf =
    scroll_cells w h color y n (suc x)
      (set buf (y * w + x) (if ltb y (h - 1) then get_or buf ((y + 1) * w + x) 0 else blank color))

unfoldable pub scroll_rows : ℕ → ℕ → ℕ → ℕ → ℕ → List ℕ → List ℕ
unfolding scroll_cells
scroll_rows w h color zero y buf = buf
scroll_rows w h color (suc n) y buf =
    scroll_rows w h color n (suc y) (scroll_cells w h color y w 0 buf)

unfoldable pub terminal_scroll : Term → Term
terminal_scroll t = record t {
  buf = scroll_rows t.width t.height t.cur_color t.height 0 t.buf;
  col = 0;
  row = t.height - 1;
}

-- `terminal_putentryat`; `none` is a failed assertion.
unfoldable pub terminal_putentryat : ℕ → ℕ → ℕ → ℕ → Term → Option Term
terminal_putentryat c color x y t =
    if ltb x t.width
    then if ltb y t.height
      then some (record t { buf = set t.buf (y * t.width + x) (vga_entry c color) })
      else none
    else none

abbrev pub write_serial : Bool → ℕ → Term → Term
write_serial true c t = record t { serial_out = t.serial_out ++ (c ∷ []) }
write_serial false c t = t

-- The cursor goes to the next row: `++g_row == TERM_HEIGH` scrolls.
unfoldable pub next_row : Term → Term
unfolding terminal_scroll
next_row t =
    let t' : Term = record t { col = 0; row = t.row + 1 } in
    if t'.row == t.height then terminal_scroll t' else t'

-- `terminal_putchar` of a byte that is printed as it is
unfoldable pub put_plain : Bool → ℕ → Term → Option Term
put_plain serial c t = elim (terminal_putentryat c t.cur_color t.col t.row t) [
  | none ↦ none
  | some t' ↦ some (
      write_serial serial c
        (if t'.col + 1 == t'.width then next_row t' else record t' { col = t'.col + 1 }))
]

-- The loop over a tab.
unfoldable pub put_blanks : ℕ → Bool → Term → Option Term
unfolding put_plain
put_blanks zero serial t = some t
put_blanks (suc n) serial t = elim (put_plain serial 32 t) [
  | none ↦ none
  | some t' ↦ put_blanks n serial t'
]

-- `terminal_putchar` of a backspace, which writes to the serial port twice.
unfoldable pub put_backspace : Bool → Term → Option Term
put_backspace serial t = elim t.col [
  | zero ↦ elim t.row [
    | zero ↦ some t
    | suc row ↦
        some (
          write_serial serial 8 (write_serial serial 8 (record t { row = row; col = t.width - 1 })))
  ]
  | suc col ↦ elim (terminal_putentryat 32 t.cur_color col t.row (record t { col = col })) [
    | none ↦ none
    | some t' ↦ some (write_serial serial 8 (write_serial serial 8 t'))
  ]
]

abbrev pub tab_width : ℕ
tab_width = 4

unfoldable pub terminal_putchar : Bool → ℕ → Term → Option Term
terminal_putchar serial c t =
    if c == 10
    then some (write_serial serial c (next_row t))
    else if c == 13
    then some (write_serial serial c (record t { col = 0 }))
    else if c == 9
    then elim (put_blanks tab_width serial t) [
      | none ↦ none
      | some t' ↦ some (write_serial serial c t')
    ]
    else if c == 8
    then put_backspace serial t
    else put_plain serial c t

unfoldable pub terminal_write : Bool → List ℕ → Term → Option Term
terminal_write serial [] t = some t
terminal_write serial (c ∷ bytes) t = elim (terminal_putchar serial c t) [
  | none ↦ none
  | some t' ↦ terminal_write serial bytes t'
]
