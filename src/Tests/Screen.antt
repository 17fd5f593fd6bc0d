-- ===== src/Tests/Screen.antt =====
-- kernel/terminal.c at a concrete input: a screen of two rows of three columns, with the cursor at
-- its end, gets a letter, a tab, a newline and two backspaces.
use minima.Base.{true, refl, [], ◌∷◌, arith, replicate}
use minima.Terminal.{Term, terminal_write}
use minima.Terminal.Cursor.{OnScreen, Stays, terminal_write-Stays}

abbrev screen : Term
screen = record {
  width = 3;
  height = 2;
  row = 1;
  col = 2;
  cur_color = 15;
  buf = replicate 6 0;
  serial_out = [];
}

screen-OnScreen : OnScreen 3 2 screen
screen-OnScreen = record {
  width = refl;
  height = refl;
  col = omega arith;
  row = omega arith;
  screen = omega arith;
}

terminal_write-Stays_example : Stays 3 2 (terminal_write true (97 ∷ 9 ∷ 10 ∷ 8 ∷ 8 ∷ []) screen)
terminal_write-Stays_example =
    terminal_write-Stays 3 2 true (97 ∷ 9 ∷ 10 ∷ 8 ∷ 8 ∷ []) screen screen-OnScreen
