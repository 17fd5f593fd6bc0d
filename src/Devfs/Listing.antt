-- ===== src/Devfs/Listing.antt =====
-- kernel/fs/dev.c: which indices are listed, and the count of the files of a device.
use minima.Base.{
  ℕ, zero, suc, ◌+◌, ◌-◌, ◌^◌, ◌≤◌, ◌<◌, ◌≡◌, ◌≢◌, refl, sym, ap, ◌∙◌, true, false, Option, none,
  some, List, [], ◌∷◌, arith, ◌==◌, if◌then◌else◌, length, get_elem?, add32, sub32, Bool-cases, leb,
  leb→le, not-leb→lt, inl, inr, ==_refl, ne→not-==, ==→eq,
}
use minima.Vfs.{World, Result, enoent}
use minima.Devfs.{
  Own, Device, DevfsNodeType, nth_device, devfs_readdir, devfs_open, devfs_close, set_refs,
}

nth_device-past :
    (idx cur : ℕ) (devices : List ℕ)
    → cur + length devices ≤ idx
    → nth_device idx cur devices ≡ none
unfolding nth_device
nth_device-past idx cur [] h = refl
nth_device-past idx cur (d ∷ devices) h =
    rw (ne→not-== cur idx (omega arith)) (nth_device-past idx (cur + 1) devices (omega arith))

nth_device-get :
    (i cur : ℕ) (devices : List ℕ) → nth_device (cur + i) cur devices ≡ get_elem? devices i
unfolding nth_device
nth_device-get i cur [] = refl
nth_device-get zero cur (d ∷ devices) =
    let here : (cur == cur + 0) ≡ true = ground arith in
    ap (λ t. if t then some d else nth_device (cur + 0) (cur + 1) devices) here
nth_device-get (suc i) cur (d ∷ devices) =
    let later : (cur == cur + suc i) ≡ false = ground arith in
    let shift : cur + suc i ≡ cur + 1 + i = omega arith in
    ap (λ t. if t then some d else nth_device (cur + suc i) (cur + 1) devices) later
    ∙ ap (λ j. nth_device j (cur + 1) devices) shift
    ∙ nth_device-get i (cur + 1) devices

-- With fewer than 2 ^ 32 - 2 devices: devfs_readdir of an index from 2 on lists the name of the
-- device at the index less 2, or fails when there is none; at the indices 0 and 1 it fails.
devfs_readdir-get :
    (w : World Own) (dir idx : ℕ)
    → length w.own.devices < 2 ^ 32 - 2
    → idx < 2 ^ 32
    → (devfs_readdir w dir idx).1 ≡ (
        if leb 2 idx
        then elim (get_elem? w.own.devices (idx - 2)) [
          | none ↦ Result.error enoent
          | some d ↦ Result.done (w.own.device (w.own.node d).dev).name
        ]
        else Result.error enoent)
unfolding devfs_readdir
devfs_readdir-get w dir idx few small =
    let put : Option ℕ → Result (List ℕ) = λ o. elim o [
      | none ↦ Result.error enoent
      | some d ↦ Result.done (w.own.device (w.own.node d).dev).name
    ] in
    let at_0 : sub32 idx 2 ≡ 0 + sub32 idx 2 = omega arith in
    elim (Bool-cases (leb 2 idx)) [
      | inl listed ↦
          let le = leb→le 2 idx listed in
          let i : sub32 idx 2 ≡ idx - 2 = omega (arith, le) in
          rw listed (
            ap (λ j. put (nth_device j 0 w.own.devices)) at_0
            ∙ ap put (nth_device-get (sub32 idx 2) 0 w.own.devices)
            ∙ ap (λ j. put (get_elem? w.own.devices j)) i)
      | inr early ↦
          let lt = not-leb→lt 2 idx early in
          rw early (ap put (nth_device-past (sub32 idx 2) 0 w.own.devices (omega (arith, lt))))
    ]

known_type :
    (type : DevfsNodeType) (opened : World Own) (bad : World Own × Result Unit)
    → type ≢ DevfsNodeType.dev_unknown
    → elim type as (λ _. World Own × Result Unit) [
      | DevfsNodeType.dev_char ↦ (opened, Result.done tt)
      | DevfsNodeType.dev_block ↦ (opened, Result.done tt)
      | DevfsNodeType.dev_unknown ↦ bad
    ]
      ≡ (opened, Result.done tt)
known_type DevfsNodeType.dev_char opened bad known = refl
known_type DevfsNodeType.dev_block opened bad known = refl
known_type DevfsNodeType.dev_unknown opened bad known = absurd (known refl)

-- devfs_open of a node of a device followed by devfs_close of it leaves the count of the files of
-- every device as it was, for counts below 2 ^ 32.
pub devfs_close-open :
    (w : World Own) (node dev : ℕ)
    → (w.own.node node).type ≢ DevfsNodeType.dev_unknown
    → (w.own.device (w.own.node node).dev).refs < 2 ^ 32
    → ((devfs_open w node).1 ≡ Result.done tt)
      × (((devfs_close (devfs_open w node).0 node).0.own.device dev).refs ≡ (w.own.device dev).refs)
unfolding devfs_open devfs_close
devfs_close-open w node dev known small =
    let n = w.own.node node in
    let d = w.own.device n.dev in
    let opened = set_refs n.dev (add32 d.refs 1) w in
    let opens : devfs_open w node ≡ (opened, Result.done tt) =
      known_type n.type opened (w, Result.panics) known in
    let up : Device = record d { refs = add32 d.refs 1 } in
    let at_dev : opened.own.device n.dev ≡ up = rw (==_refl n.dev) refl in
    let back : sub32 (opened.own.device n.dev).refs 1 ≡ d.refs =
      ap (λ e. sub32 e.refs 1) at_dev ∙ omega arith in
    (
      ap (λ r. r.1) opens,
      ap (λ r. ((devfs_close r.0 node).0.own.device dev).refs) opens
          ∙ elim (Bool-cases (dev == n.dev)) [
            | inl same ↦
                rw same (back ∙ ap (λ e. (w.own.device e).refs) (sym (==→eq dev n.dev same)))
            | inr other ↦ rw other refl
          ],
    )
