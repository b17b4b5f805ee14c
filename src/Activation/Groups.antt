-- ===== src/Activation/Groups.antt =====
-- The grouped files as `SelectApexForActivation` meets them: each under its own name.
use mathlib.Core.Path.{subst, subst₂}
use system_apex.Base.{
  String, ◌≡◌, refl, sym, ◌∙◌, ap, true, false, Option, none, some, List, [], ◌∷◌, ◌++◌, find,
  assign, find-assign, eq_iff, eq_refl, arith, ◌==◌, Dict, All, Bool-cases, inl, inr, ok, is_ok,
  Result-cases,
}
use mathlib.Core.List.{append-nil}
use system_apex.ApexFile.{ApexFile}
use system_apex.Repository.{ApexFileRepository}
use system_apex.Repository.Queries.{group_by_name, with_file}
use system_apex.Repository.Grouping.{named, named-append, files_of}
use system_apex.Activation.Select.{select_between, select_group, select_apex_for_activation}

abbrev pub AllNamed : String → List ApexFile → Type 0
AllNamed k fs = All (λ (a : ApexFile). a.name ≡ k) fs

abbrev pub Grouped : Dict (List ApexFile) → Type 0
Grouped [] = Unit
Grouped ((k, fs) ∷ m) = (find m k ≡ none) × AllNamed k fs × Grouped m

AllNamed-with_file :
    (k : String) (o : Option (List ApexFile)) (a : ApexFile)
    → ((fs : List ApexFile) → o ≡ some fs → AllNamed k fs)
    → a.name ≡ k
    → AllNamed k (with_file o a)
AllNamed-with_file k none a h e = (e, tt)
AllNamed-with_file k (some fs) a h e = extend fs (h fs refl)
  where
    extend : (xs : List ApexFile) → AllNamed k xs → AllNamed k (xs ++ a ∷ [])
    extend [] t = (e, tt)
    extend (x ∷ xs) t = (t.0, extend xs t.1)

AllNamed-find :
    (m : Dict (List ApexFile)) (k : String) (fs : List ApexFile)
    → Grouped m
    → find m k ≡ some fs
    → AllNamed k fs
unfolding find
AllNamed-find [] k fs g h = cc
AllNamed-find ((j, gs) ∷ m) k fs g h = elim (Bool-cases (j == k)) [
  | inl same ↦
      let e : gs ≡ fs = ground arith in subst₂ (λ x y. AllNamed x y) ((eq_iff j k).0 same) e g.1
  | inr other ↦ AllNamed-find m k fs g.2 (ground arith)
]

Grouped-assign :
    (m : Dict (List ApexFile)) (k : String) (fs : List ApexFile)
    → AllNamed k fs
    → Grouped m
    → Grouped (assign m k fs)
unfolding assign find
Grouped-assign [] k fs a g = (refl, a, tt)
Grouped-assign ((j, gs) ∷ m) k fs a g = elim (Bool-cases (j == k)) [
  | inl same ↦ rw (same, assign) (subst (λ x. find m x ≡ none) ((eq_iff j k).0 same) g.0, a, g.2)
  | inr other ↦
      rw (other, assign)
        (
          ground (arith, find-assign m k j fs, eq_iff j k, eq_iff k j),
          g.1,
          Grouped-assign m k fs a g.2,
        )
]

pub Grouped-group_by_name :
    (m : Dict (List ApexFile)) (xs : List ApexFile) → Grouped m → Grouped (group_by_name m xs)
unfolding group_by_name
Grouped-group_by_name m [] g = g
Grouped-group_by_name m (x ∷ xs) g =
    Grouped-group_by_name (assign m x.name (with_file (find m x.name) x)) xs (
      Grouped-assign m x.name (with_file (find m x.name) x)
        (AllNamed-with_file x.name (find m x.name) x (λ fs. AllNamed-find m x.name fs g) refl) g)

named_self : (n : String) (xs : List ApexFile) → AllNamed n xs → named n xs ≡ xs
named_self n [] h = refl
named_self n (x ∷ xs) h = ground (arith, named_self n xs, eq_iff x.name n)

named_other :
    (n k : String) (xs : List ApexFile) → (k == n) ≡ false → AllNamed k xs → named n xs ≡ []
named_other n k [] e h = refl
named_other n k (x ∷ xs) e h = ground (arith, named_other n k xs, eq_iff x.name n, eq_iff k n)

AllNamed-select_group :
    (r : ApexFileRepository) (k : String) (fs sel : List ApexFile)
    → select_group r k fs ≡ ok sel
    → AllNamed k fs
    → AllNamed k sel
unfolding select_group select_between
AllNamed-select_group r k [] sel e h = cc
AllNamed-select_group r k (a ∷ []) sel e h = ground arith
AllNamed-select_group r k (a ∷ b ∷ []) sel e h = ground arith
AllNamed-select_group r k (a ∷ b ∷ c ∷ rest) sel e h = cc

-- What the selection takes of a group.
abbrev pub selected_of : ApexFileRepository → String → Option (List ApexFile) → List ApexFile
selected_of r n none = []
selected_of r n (some fs) = elim (select_group r n fs) [ ok sel ↦ sel | _ ↦ [] ]

selected_here :
    (r : ApexFileRepository) (n : String) (fs sel : List ApexFile)
    → select_group r n fs ≡ ok sel
    → selected_of r n (some fs) ≡ sel
selected_here r n fs sel e = ground arith

pub named-select :
    (r : ApexFileRepository) (m : Dict (List ApexFile)) (n : String) (l : List ApexFile)
    → Grouped m
    → select_apex_for_activation m r ≡ ok l
    → named n l ≡ selected_of r n (find m n)
unfolding select_apex_for_activation find
named-select r [] n l g h = let e : l ≡ [] = ground arith in ap (named n) e
named-select r ((k, fs) ∷ m) n l g h = elim (Result-cases (select_group r k fs)) [
  | inr failed ↦ absurd (ground arith)
  | inl (sel, chosen) ↦ elim (Result-cases (select_apex_for_activation m r)) [
    | inr failed ↦ absurd (ground arith)
    | inl (rest, more) ↦
        let parts : l ≡ sel ++ rest = ground arith in
        let own : AllNamed k sel = AllNamed-select_group r k fs sel chosen g.1 in
        let ih : named n rest ≡ selected_of r n (find m n) = named-select r m n rest g.2 more in
        rw (parts, named-append n sel rest, ih)
          (elim (Bool-cases (k == n)) [
            | inr other ↦ rw (other, named_other n k sel other own)
            | inl same ↦ rw same (at_name sel chosen own ((eq_iff k n).0 same))
          ])
  ]
]
  where
    at_name :
        (sel : List ApexFile)
        → select_group r k fs ≡ ok sel
        → AllNamed k sel
        → k ≡ n
        → named n sel ++ selected_of r n (find m n) ≡ selected_of r n (some fs)
    at_name sel chosen own e =
        let gone : find m n ≡ none = subst (λ x. find m x ≡ none) e g.0 in
        let here : select_group r n fs ≡ ok sel =
          subst (λ x. select_group r x fs ≡ ok sel) e chosen in
        let mine : AllNamed n sel = subst (λ x. AllNamed x sel) e own in
        rw (gone, named_self n sel mine) (append-nil sel ∙ sym (selected_here r n fs sel here))

abbrev Shaped : Option (List ApexFile) → Type 0
Shaped none = Unit
Shaped (some []) = ⊥
Shaped (some (a ∷ [])) = Unit
Shaped (some (a ∷ b ∷ [])) = Unit
Shaped (some (a ∷ b ∷ c ∷ rest)) = ⊥

select_group-ok :
    (r : ApexFileRepository) (k : String) (fs : List ApexFile)
    → Shaped (some fs)
    → is_ok (select_group r k fs) ≡ true
unfolding select_group
select_group-ok r k [] h = absurd h
select_group-ok r k (a ∷ []) h = refl
select_group-ok r k (a ∷ b ∷ []) h = refl
select_group-ok r k (a ∷ b ∷ c ∷ rest) h = absurd h

pub select-ok :
    (r : ApexFileRepository) (m : Dict (List ApexFile))
    → Grouped m
    → ((n : String) → Shaped (find m n))
    → is_ok (select_apex_for_activation m r) ≡ true
unfolding select_apex_for_activation find
select-ok r [] g h = refl
select-ok r ((k, fs) ∷ m) g h = ground (arith, select_group-ok r k fs head, select-ok r m g.2 tail)
  where
    head : Shaped (some fs)
    head = rw eq_refl at (h k)

    tail : (n : String) → Shaped (find m n)
    tail n = elim (Bool-cases (k == n)) [
      | inl same ↦
          subst (λ o. Shaped o) (sym (subst (λ x. find m x ≡ none) ((eq_iff k n).0 same) g.0)) tt
      | inr other ↦ rw other at (h n)
    ]

pub Shaped-files_of : (p d : Option ApexFile) → Shaped (files_of p d)
Shaped-files_of none none = tt
Shaped-files_of none (some d) = tt
Shaped-files_of (some p) none = tt
Shaped-files_of (some p) (some d) = tt
