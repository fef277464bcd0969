-- ===== src/Boot/Ends.antt =====
-- When `checkStringEndsWith` of kernel/src/main.c accepts a name.
use ppo_os.Common.{
  ℕ, zero, suc, ◌+◌, ◌-◌, ◌≤◌, ◌<◌, ◌≡◌, ◌↔◌, refl, Bool, true, false, List, Option, some, arith,
  ◌==◌, ne→==, ==→eq, ==→ne, Bool-cases, inl, inr, length,
}
use ppo_os.CString.{Memory}
use ppo_os.CString.Str.Held.{Held, strlen-Held}
use ppo_os.Boot.Suffix.{compare_back, check_string_ends_with}

-- From the last characters back the strings agree, for `j + 1` characters, and the first string is not shorter.
Agree : Memory → ℕ → ℕ → ℕ → ℕ → Type 0
Agree m str end i j = (suc j ≤ i) × ((t : ℕ) → t ≤ j → m (str + (i - t)) ≡ m (end + (suc j - t)))

Agree-suc :
    (m : Memory) (str end i j : ℕ)
    → m (str + i) ≡ m (end + suc (suc j))
    → 1 < i
    → Agree m str end (i - 1) j ↔ Agree m str end i (suc j)
unfolding Agree
Agree-suc m str end i j same more = (
  λ (long, below). (omega arith, agree below),
  λ (long, back). (
    omega arith,
    λ t le.
        let e : i - 1 - t ≡ i - suc t = omega arith in
        let e' : suc j - t ≡ suc (suc j) - suc t = omega arith in
        rw (e, e') (back (suc t) (omega arith)),
  ),
)
  where
    agree :
        ((t : ℕ) → t ≤ j → m (str + (i - 1 - t)) ≡ m (end + (suc j - t)))
        → (t : ℕ) → t ≤ suc j
        → m (str + (i - t)) ≡ m (end + (suc (suc j) - t))
    agree below zero le =
        let e : i - 0 ≡ i = omega arith in
        let e' : suc (suc j) - 0 ≡ suc (suc j) = omega arith in rw (e, e') same
    agree below (suc t) le =
        let e : i - suc t ≡ i - 1 - t = omega arith in
        let e' : suc (suc j) - suc t ≡ suc j - t = omega arith in rw (e, e') (below t (omega arith))

at_last :
    (m : Memory) (str end i k : ℕ)
    → m (str + (i - 0)) ≡ m (end + (k - 0))
    → m (str + i) ≡ m (end + k)
at_last m str end i k h =
    let e : i - 0 ≡ i = omega arith in let e' : k - 0 ≡ k = omega arith in rw (e, e') at h

-- The test returns, and accepts when this holds and only then.
pub Outcome : Option Bool → Type 0 → Type 0
Outcome o P = (b : Bool) × (o ≡ some b) × ((b ≡ true) ↔ P)

accepted : {P : Type 0} → P → Outcome (some true) P
unfolding Outcome
accepted p = (true, refl, (λ _. p, λ _. refl))

refused : {P : Type 0} → ¬ P → Outcome (some false) P
unfolding Outcome
refused h = (false, refl, (λ e. cc, λ p. absurd (h p)))

Outcome_iff : {P Q : Type 0} (o : Option Bool) → (P ↔ Q) → Outcome o P → Outcome o Q
unfolding Outcome
Outcome_iff o f (b, e, g) = (b, e, (λ t. f.0 (g.0 t), λ q. g.1 (f.1 q)))

compare_back-Outcome :
    (m : Memory) (str end : ℕ) (j i : ℕ)
    → 0 < i
    → Outcome (compare_back m str end i (suc j)) (Agree m str end i j)
unfolding compare_back Agree
compare_back-Outcome m str end zero i some_char = elim (Bool-cases (m (str + i) == m (end + 1))) [
  | inr differ ↦
      rw differ
        (refused (λ (long, back). ==→ne _ _ differ (at_last m str end i _ (back 0 (omega arith)))))
  | inl same ↦
      rw (same, ne→== i 0 (omega arith))
        (accepted (
          some_char,
          λ t le.
              let e : i - t ≡ i = omega arith in
              let e' : 1 - t ≡ 1 = omega arith in rw (e, e') (==→eq _ _ same),
        ))
]
compare_back-Outcome m str end (suc j) i some_char =
    elim (Bool-cases (m (str + i) == m (end + suc (suc j)))) [
      | inr differ ↦ rw differ (
          refused (λ (long, back). ==→ne _ _ differ (at_last m str end i _ (back 0 (omega arith)))))
      | inl same ↦ elim (Bool-cases (i == 1)) [
        | inl short ↦
            rw (same, ne→== i 0 (omega arith), short, ne→== (suc j) 0 (omega arith))
              (refused (λ (long, back). absurd (omega (arith, ==→eq i 1 short))))
        | inr long ↦
            rw (same, ne→== i 0 (omega arith), long, ne→== (suc j) 0 (omega arith))
              (Outcome_iff _
                (Agree-suc m str end i j (==→eq _ _ same) (omega (arith, ==→ne i 1 long)))
                (compare_back-Outcome m str end j (i - 1) (omega (arith, ==→ne i 1 long))))
      ]
    ]

-- The first string is no shorter than the ending, and they agree in the last characters, as many as the
-- ending has after its first.
pub EndsButFirst : Memory → ℕ → ℕ → ℕ → ℕ → Type 0
EndsButFirst m str n end k =
    (k ≤ n) × ((t : ℕ) → suc t < k → m (str + (n - suc t)) ≡ m (end + (k - suc t)))

Agree-EndsButFirst :
    (m : Memory) (str end n k : ℕ)
    → 1 < n
    → 1 < k
    → Agree m str end (n - 1) (k - 2) ↔ EndsButFirst m str n end k
unfolding Agree EndsButFirst
Agree-EndsButFirst m str end n k some_chars more = (
  λ (long, back). (omega arith, λ t lt. rw (← back_from n t, ← at_end t lt) (back t (omega arith))),
  λ (long, back).
      (omega arith, λ t le. rw (back_from n t, at_end t (omega arith)) (back t (omega arith))),
)
  where
    back_from : (n t : ℕ) → n - 1 - t ≡ n - suc t
    back_from n t = omega arith

    at_end : (t : ℕ) → suc t < k → suc (k - 2) - t ≡ k - suc t
    at_end t lt = omega arith

-- `checkStringEndsWith` on two C strings of two characters or more, with fuel for their lengths,
-- returns, and it accepts exactly the strings that are no shorter than the ending and agree with
-- it in all its characters but the first one.
pub check_string_ends_with-EndsButFirst :
    (fuel : ℕ) (m : Memory) (str end : ℕ) (cs ds : List ℕ)
    → length cs < fuel
    → length ds < fuel
    → Held m str cs
    → Held m end ds
    → 1 < length cs
    → 1 < length ds
    → Outcome
        (check_string_ends_with fuel m str end)
        (EndsButFirst m str (length cs) end (length ds))
unfolding check_string_ends_with
check_string_ends_with-EndsButFirst fuel m str end cs ds cs_short ds_short cs_held ds_held cs_long
      ds_long =
    let last : length ds - 1 ≡ suc (length ds - 2) = omega arith in
    rw
      (
        strlen-Held fuel m str cs cs_short cs_held,
        strlen-Held fuel m end ds ds_short ds_held,
        ne→== (length cs) 0 (omega arith),
        ne→== (length ds) 0 (omega arith),
        last,
      )
      (Outcome_iff _ (Agree-EndsButFirst m str end (length cs) (length ds) cs_long ds_long)
        (compare_back-Outcome m str end (length ds - 2) (length cs - 1) (omega arith)))
