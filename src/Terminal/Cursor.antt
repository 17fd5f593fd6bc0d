-- ===== src/Terminal/Cursor.antt =====
-- kernel/terminal.c: the cursor stays on the screen, so that no assertion fails.
use minima.Base.{
  ℕ, zero, suc, ◌+◌, ◌-◌, ◌*◌, ◌≤◌, ◌<◌, ◌≡◌, refl, ◌∙◌, Bool, true, false, none, some, Option,
  List, [], ◌∷◌, arith, length, length-set, ◌==◌, if◌then◌else◌, Bool-cases, inl, inr, set, lt→ltb,
  not-==→ne,
}
use minima.Terminal.{
  Term, scroll_cells, scroll_rows, terminal_scroll, terminal_putentryat, write_serial, next_row,
  put_plain, put_blanks, put_backspace, terminal_putchar, terminal_write, vga_entry,
}

-- The cursor is on a screen of that size, and the screen in the buffer.
pub record OnScreen (w h : ℕ) (t : Term) : Type 0 where
  pub width : t.width ≡ w
  pub height : t.height ≡ h
  pub col : t.col < w
  pub row : t.row < h
  pub screen : w * h ≤ length t.buf

-- The call returns, with the cursor on the screen.
pub data Stays (w h : ℕ) : Option Term → Type 0 where
  stays : {t : Term} → OnScreen w h t → Stays w h (some t)

length-scroll_cells :
    (w h color y n x : ℕ) (buf : List ℕ) → length (scroll_cells w h color y n x buf) ≡ length buf
unfolding scroll_cells
length-scroll_cells w h color y zero x buf = refl
length-scroll_cells w h color y (suc n) x buf =
    length-scroll_cells w h color y n (suc x) _ ∙ length-set buf (y * w + x) _

length-scroll_rows :
    (w h color n y : ℕ) (buf : List ℕ) → length (scroll_rows w h color n y buf) ≡ length buf
unfolding scroll_rows
length-scroll_rows w h color zero y buf = refl
length-scroll_rows w h color (suc n) y buf =
    length-scroll_rows w h color n (suc y) _ ∙ length-scroll_cells w h color y w 0 buf

serial-OnScreen :
    (w h : ℕ) (serial : Bool) (c : ℕ) (t : Term)
    → OnScreen w h t
    → OnScreen w h (write_serial serial c t)
serial-OnScreen w h true c t is = record {
  width = is.width;
  height = is.height;
  col = is.col;
  row = is.row;
  screen = is.screen;
}
serial-OnScreen w h false c t is = is

scroll-OnScreen :
    (w h : ℕ) (t : Term)
    → t.width ≡ w
    → t.height ≡ h
    → 0 < w
    → 0 < h
    → w * h ≤ length t.buf
    → OnScreen w h (terminal_scroll t)
unfolding terminal_scroll
scroll-OnScreen w h t ew eh pw ph room = record {
  width = ew;
  height = eh;
  col = pw;
  row = omega (arith, eh);
  screen = omega (arith, room, length-scroll_rows t.width t.height t.cur_color t.height 0 t.buf);
}

next_row-OnScreen : (w h : ℕ) (t : Term) → OnScreen w h t → OnScreen w h (next_row t)
unfolding next_row
next_row-OnScreen w h t is = elim (Bool-cases (t.row + 1 == t.height)) [
  | inl e ↦ rw e (
      scroll-OnScreen w h (record t { col = 0; row = t.row + 1 }) is.width is.height
        (omega (arith, is.col)) (omega (arith, is.row)) is.screen)
  | inr e ↦ rw e (record {
    width = is.width;
    height = is.height;
    col = omega (arith, is.col);
    row = omega (arith, not-==→ne _ _ e, is.height, is.row);
    screen = is.screen;
  })
]

putentryat-some :
    (c color x y : ℕ) (t : Term)
    → x < t.width
    → y < t.height
    → terminal_putentryat c color x y t
      ≡ some (record t { buf = set t.buf (y * t.width + x) (vga_entry c color) })
unfolding terminal_putentryat
putentryat-some c color x y t hx hy = rw (lt→ltb x t.width hx, lt→ltb y t.height hy)

written-OnScreen :
    (w h i v : ℕ) (t : Term) → OnScreen w h t → OnScreen w h (record t { buf = set t.buf i v })
written-OnScreen w h i v t is = record {
  width = is.width;
  height = is.height;
  col = is.col;
  row = is.row;
  screen = omega (arith, is.screen, length-set t.buf i v);
}

-- the cursor one column on
step_col : Term → Term
step_col t = if t.col + 1 == t.width then next_row t else record t { col = t.col + 1 }

step_col-OnScreen : (w h : ℕ) (t : Term) → OnScreen w h t → OnScreen w h (step_col t)
unfolding step_col
step_col-OnScreen w h t is = elim (Bool-cases (t.col + 1 == t.width)) [
  | inl e ↦ rw e (next_row-OnScreen w h t is)
  | inr e ↦ rw e (record {
    width = is.width;
    height = is.height;
    col = omega (arith, not-==→ne _ _ e, is.width, is.col);
    row = is.row;
    screen = is.screen;
  })
]

put_plain-Stays :
    (w h : ℕ) (serial : Bool) (c : ℕ) (t : Term) → OnScreen w h t → Stays w h (put_plain serial c t)
unfolding put_plain step_col
put_plain-Stays w h serial c t is =
    let i = t.row * t.width + t.col in
    rw
      (
        putentryat-some c t.cur_color t.col t.row t (omega (arith, is.width, is.col))
            (omega (arith, is.height, is.row)),
        put_plain,
      )
      (stays (
        serial-OnScreen w h serial c
          (step_col (record t { buf = set t.buf i (vga_entry c t.cur_color) }))
          (step_col-OnScreen w h _ (written-OnScreen w h i (vga_entry c t.cur_color) t is))))

bind-Stays :
    (w h : ℕ) (f : Term → Option Term)
    → ((t : Term) → OnScreen w h t → Stays w h (f t))
    → (r : Option Term) → Stays w h r
    → Stays w h (elim r [ none ↦ none | some t ↦ f t ])
bind-Stays w h f k none s = elim s [ ]
bind-Stays w h f k (some t) (stays is) = k t is

put_blanks-Stays :
    (w h n : ℕ) (serial : Bool) (t : Term) → OnScreen w h t → Stays w h (put_blanks n serial t)
unfolding put_blanks
put_blanks-Stays w h zero serial t is = stays is
put_blanks-Stays w h (suc n) serial t is =
    bind-Stays w h (put_blanks n serial) (put_blanks-Stays w h n serial) (put_plain serial 32 t)
      (put_plain-Stays w h serial 32 t is)

backspace-Stays :
    (w h : ℕ) (serial : Bool) (t : Term) (col row : ℕ)
    → t.col ≡ col
    → t.row ≡ row
    → OnScreen w h t
    → Stays w h (put_backspace serial t)
unfolding put_backspace
backspace-Stays w h serial t zero zero ec er is = rw (ec, er, put_backspace) (stays is)
backspace-Stays w h serial t zero (suc row) ec er is =
    rw (ec, er, put_backspace)
      (stays (
        serial-OnScreen w h serial 8 _ (
          serial-OnScreen w h serial 8 (record t { row = row; col = t.width - 1 })
            (record {
              width = is.width;
              height = is.height;
              col = omega (arith, is.width, is.col);
              row = omega (arith, is.row, er);
              screen = is.screen;
            }))))
backspace-Stays w h serial t (suc col) row ec er is =
    let back : Term = record t { col = col } in
    let is' : OnScreen w h back = record {
      width = is.width;
      height = is.height;
      col = omega (arith, is.col, ec);
      row = is.row;
      screen = is.screen;
    } in
    let i = t.row * t.width + col in
    rw
      (
        ec,
        putentryat-some 32 t.cur_color col t.row back (omega (arith, is'.width, is'.col))
            (omega (arith, is.height, is.row)),
        put_backspace,
      )
      (stays (
        serial-OnScreen w h serial 8 _ (
          serial-OnScreen w h serial 8 _
            (written-OnScreen w h i (vga_entry 32 t.cur_color) back is'))))

terminal_putchar-Stays :
    (w h : ℕ) (serial : Bool) (c : ℕ) (t : Term)
    → OnScreen w h t
    → Stays w h (terminal_putchar serial c t)
unfolding terminal_putchar
terminal_putchar-Stays w h serial c t is = elim (Bool-cases (c == 10)) [
  | inl e ↦ rw e (stays (serial-OnScreen w h serial c _ (next_row-OnScreen w h t is)))
  | inr not_newline ↦ elim (Bool-cases (c == 13)) [
    | inl e ↦
        rw (not_newline, e)
          (stays (
            serial-OnScreen w h serial c (record t { col = 0 })
              (record {
                width = is.width;
                height = is.height;
                col = omega (arith, is.col);
                row = is.row;
                screen = is.screen;
              })))
    | inr not_return ↦ elim (Bool-cases (c == 9)) [
      | inl e ↦
          rw (not_newline, not_return, e)
            (bind-Stays w h (λ t'. some (write_serial serial c t'))
              (λ t' is'. stays (serial-OnScreen w h serial c t' is')) (put_blanks 4 serial t)
              (put_blanks-Stays w h 4 serial t is))
      | inr not_tab ↦ elim (Bool-cases (c == 8)) [
        | inl e ↦
            rw (not_newline, not_return, not_tab, e)
              (backspace-Stays w h serial t t.col t.row refl refl is)
        | inr plain ↦
            rw (not_newline, not_return, not_tab, plain) (put_plain-Stays w h serial c t is)
      ]
    ]
  ]
]

-- From a cursor on the screen, terminal_write returns for all bytes, so that no assertion fails,
-- and leaves the cursor on the screen and the size of the screen and the room in its buffer as they
-- were.
pub terminal_write-Stays :
    (w h : ℕ) (serial : Bool) (bytes : List ℕ) (t : Term)
    → OnScreen w h t
    → Stays w h (terminal_write serial bytes t)
unfolding terminal_write
terminal_write-Stays w h serial [] t is = stays is
terminal_write-Stays w h serial (c ∷ bytes) t is =
    bind-Stays w h (terminal_write serial bytes) (terminal_write-Stays w h serial bytes)
      (terminal_putchar serial c t) (terminal_putchar-Stays w h serial c t is)
