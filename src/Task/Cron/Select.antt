-- ===== src/Task/Cron/Select.antt =====
-- The numbers that one part of a cron field selects.
use mathlib.Core.Path.{subst}
use native.Mathlib.Nat.{suc-mul}
use konzhitai.Prelude.{
  Bool, refl, ap, ◌≢◌, ◌⊎◌, [], ◌∷◌, map, ℕ, zero, suc, ◌+◌, ◌*◌, ◌≤◌, ◌<◌, ◌≡◌, sym, ◌∙◌, ◌↔◌, inl,
  inr, true, false, ◌||◌, List, some, arith, leb, ◌==◌, nat_eq, Bool-cases,
}
use konzhitai.Prelude.Int.{ℤ, pos, +ℤ_pos, ◌+ℤ◌}
use konzhitai.Task.Usage.{int_eq, int_same}
use konzhitai.Task.Cron.{normal, select_items, selects, in_range}

abbrev small : ℕ
small = 4_611_686_018_427_387_904

next_item : (s d : ℕ) → s ≤ 59 → d ≤ small → pos s +ℤ pos d ≡ pos (s + d)
next_item s d h k = +ℤ_pos s d (omega arith)

opened :
    (n s e d x : ℕ)
    → s ≤ e
    → e ≤ 59
    → d ≤ small
    → selects (select_items (suc n) false (pos s) (pos e) (pos d)) x
      ≡ (s == x || selects (select_items n false (pos (s + d)) (pos e) (pos d)) x)
unfolding select_items
opened n s e d x h k b = ground (arith, next_item s d (omega arith) b)

closed :
    (n s e d x : ℕ) → e < s → selects (select_items (suc n) false (pos s) (pos e) (pos d)) x ≡ false
unfolding select_items
closed n s e d x h = ground arith

sound :
    (n s e d x : ℕ)
    → e ≤ 59
    → d ≤ small
    → selects (select_items n false (pos s) (pos e) (pos d)) x ≡ true
    → (k : ℕ) × (x ≡ s + k * d) × (x ≤ e)
unfolding select_items
sound zero s e d x h b sel = absurd (ground (arith, sel))
sound (suc n) s e d x h b sel = elim (Bool-cases (leb s e)) [
  | inr f ↦ absurd (ground (arith, sym (closed n s e d x (ground arith)) ∙ sel))
  | inl t ↦ elim (Bool-cases (s == x)) [
    | inl same ↦ (0, ground arith, ground arith)
    | inr other ↦
        let rest : selects (select_items n false (pos (s + d)) (pos e) (pos d)) x ≡ true =
          ground (arith, opened n s e d x (ground arith) h b) in
        let (k, is, inside) = sound n (s + d) e d x h b rest in
        (suc k, omega (arith, is, suc-mul k d), inside)
  ]
]

complete :
    (n s e d x k : ℕ)
    → e ≤ 59
    → d ≤ small
    → 0 < d
    → e < s + n
    → x ≡ s + k * d
    → x ≤ e
    → selects (select_items n false (pos s) (pos e) (pos d)) x ≡ true
complete zero s e d x k h b p fuel is l = absurd (omega arith)
complete (suc n) s e d x zero h b p fuel is l =
    let same : (s == x) ≡ true = ground (arith, is) in
    opened n s e d x (omega arith) h b ∙ ground (arith, same)
complete (suc n) s e d x (suc k) h b p fuel is l =
    let rest = complete n (s + d) e d x k h b p (omega arith) (omega (arith, is, suc-mul k d)) l in
    opened n s e d x (omega (arith, suc-mul k d)) h b ∙ ground (arith, rest)

-- A number as the field reads it: the weekday 7 is 0 where `seven` holds.
abbrev pub Reads : Bool → ℕ → ℕ → Type 0
Reads false y x = y ≡ x
Reads true y x = ((y ≢ 7) × (y ≡ x)) ⊎ ((y ≡ 7) × (x ≡ 0))

-- The items of a part that reads 7 as 0, from those of one that does not.
read_all :
    (n : ℕ) (s e d : ℤ) → select_items n true s e d ≡ map (normal true) (select_items n false s e d)
unfolding select_items
read_all zero s e d = refl
read_all (suc n) s e d = ground (arith, read_all n (s +ℤ d) e d)

read_seven :
    (ys : List ℤ) (x : ℕ)
    → selects (map (normal true) ys) x ≡ true
    → ((x ≢ 7) × (selects ys x ≡ true)) ⊎ ((x ≡ 0) × (selects ys 7 ≡ true))
read_seven [] x h = absurd (ground (arith, h))
read_seven (y ∷ ys) x h = elim (Bool-cases (y == pos 7)) [
  | inl seven ↦ elim (Bool-cases (0 == x)) [
    | inl e ↦ inr (ground (arith, e), ground (arith, seven))
    | inr ne ↦ later (read_seven ys x (ground (arith, h, seven, ne)))
  ]
  | inr other ↦ elim (Bool-cases (y == pos x)) [
    | inl e ↦ inl ((λ g. not_seven (int_same y (pos x) e) g other), ground (arith, e))
    | inr ne ↦ later (read_seven ys x (ground (arith, h, other, ne)))
  ]
]
  where
    not_seven : y ≡ pos x → x ≡ 7 → (y == pos 7) ≡ false → ⊥
    not_seven e g f = ground (arith, e, g, f)

    later :
        ((x ≢ 7) × (selects ys x ≡ true)) ⊎ ((x ≡ 0) × (selects ys 7 ≡ true))
        → ((x ≢ 7) × (selects (y ∷ ys) x ≡ true)) ⊎ ((x ≡ 0) × (selects (y ∷ ys) 7 ≡ true))
    later (inl (ne, g)) = inl (ne, ground (arith, g))
    later (inr (z, g)) = inr (z, ground (arith, g))

seven_read :
    (ys : List ℤ) (x : ℕ)
    → ((x ≢ 7) × (selects ys x ≡ true)) ⊎ ((x ≡ 0) × (selects ys 7 ≡ true))
    → selects (map (normal true) ys) x ≡ true
seven_read [] x (inl (ne, h)) = absurd (ground (arith, h))
seven_read [] x (inr (z, h)) = absurd (ground (arith, h))
seven_read (y ∷ ys) x (inl (ne, h)) = elim (Bool-cases (y == pos x)) [
  | inl e ↦ ground (arith, int_same y (pos x) e, ne)
  | inr other ↦ ground (arith, h, other, seven_read ys x (inl (ne, ground (arith, h, other))))
]
seven_read (y ∷ ys) x (inr (z, h)) = elim (Bool-cases (y == pos 7)) [
  | inl e ↦ ground (arith, e, z)
  | inr other ↦ ground (arith, h, other, seven_read ys x (inr (z, ground (arith, h, other))))
]

accepted :
    (minimum maximum s e d : ℕ) (seven : Bool) (xs : List ℤ)
    → in_range minimum maximum seven (pos d) (some (pos s, pos e)) ≡ some xs
    → ((minimum ≤ s) × (s ≤ e) × (e ≤ maximum))
      × (select_items 64 seven (pos s) (pos e) (pos d) ≡ xs)
unfolding in_range
accepted minimum maximum s e d seven xs got = ground (arith, got)

-- The multiples of the step above the start, up to the end, as the field reads them.
abbrev pub Picks : Bool → ℕ → ℕ → ℕ → ℕ → Type 0
Picks seven s e d x = (k : ℕ) × (s + k * d ≤ e) × Reads seven (s + k * d) x

Picks-sound :
    (seven : Bool) (s e d x : ℕ)
    → e ≤ 59
    → d ≤ small
    → selects (select_items 64 seven (pos s) (pos e) (pos d)) x ≡ true
    → Picks seven s e d x
Picks-sound false s e d x b h sel =
    let (k, is, inside) = sound 64 s e d x b h sel in (k, omega (arith, is, inside), sym is)
Picks-sound true s e d x b h sel = step (
    read_seven (select_items 64 false (pos s) (pos e) (pos d)) x
      (ap (λ ys. selects ys x) (sym (read_all 64 (pos s) (pos e) (pos d))) ∙ sel))
  where
    step :
        ((x ≢ 7) × (selects (select_items 64 false (pos s) (pos e) (pos d)) x ≡ true))
          ⊎ ((x ≡ 0) × (selects (select_items 64 false (pos s) (pos e) (pos d)) 7 ≡ true))
        → Picks true s e d x
    step (inl (ne, g)) =
        let (k, is, inside) = sound 64 s e d x b h g in
        (k, omega (arith, is, inside), inl ((λ y. ne (is ∙ y)), sym is))
    step (inr (z, g)) =
        let (k, is, inside) = sound 64 s e d 7 b h g in
        (k, omega (arith, is, inside), inr (sym is, z))

Picks-complete :
    (seven : Bool) (s e d x : ℕ)
    → e ≤ 59
    → d ≤ small
    → 0 < d
    → Picks seven s e d x
    → selects (select_items 64 seven (pos s) (pos e) (pos d)) x ≡ true
Picks-complete false s e d x b h p (k, inside, is) =
    complete 64 s e d x k b h p (omega arith) (sym is) (omega (arith, inside, is))
Picks-complete true s e d x b h p (k, inside, inl (ne, is)) =
    ap (λ ys. selects ys x) (read_all 64 (pos s) (pos e) (pos d))
    ∙ seven_read (select_items 64 false (pos s) (pos e) (pos d)) x (
        inl (
          (λ y. ne (is ∙ y)),
          complete 64 s e d x k b h p (omega arith) (sym is) (omega (arith, inside, is)),
        ))
Picks-complete true s e d x b h p (k, inside, inr (is, z)) =
    ap (λ ys. selects ys x) (read_all 64 (pos s) (pos e) (pos d))
    ∙ seven_read (select_items 64 false (pos s) (pos e) (pos d)) x
        (inr (z, complete 64 s e d 7 k b h p (omega arith) (sym is) (omega (arith, inside, is))))

-- A part from `s` to `e` with a step `d` that is neither 0 nor above 2^62, of a field that ends at 59 at most, is
-- accepted only inside the field's range, and then selects exactly the numbers that lie a multiple of the step above
-- `s`, up to `e`; where the field is that of the weekday, 0 stands for 7.
pub in_range-selects :
    (minimum maximum s e d x : ℕ) (seven : Bool) (xs : List ℤ)
    → maximum ≤ 59
    → 0 < d
    → d ≤ small
    → in_range minimum maximum seven (pos d) (some (pos s, pos e)) ≡ some xs
    → ((minimum ≤ s) × (s ≤ e) × (e ≤ maximum)) × ((selects xs x ≡ true) ↔ Picks seven s e d x)
in_range-selects minimum maximum s e d x seven xs b p h got =
    let ((low, ordered, high), is) = accepted minimum maximum s e d seven xs got in
    (
      (low, ordered, high),
      subst (λ ys. (selects ys x ≡ true) ↔ Picks seven s e d x) is
          (
            Picks-sound seven s e d x (omega arith) h,
            Picks-complete seven s e d x (omega arith) h p,
          ),
    )
