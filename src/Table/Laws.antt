-- ===== src/Table/Laws.antt =====
-- What a search returns, and how searches see an append and a write.
use harnessing.Prelude.{
  ℕ, suc, String, true, false, none, some, List, [], ◌∷◌, ◌++◌, ◌≡◌, ◌≢◌, refl, sym, subst, str_eq,
  eq_iff, arith, if◌then◌else◌, All, set, length, inl, inr, Bool-cases, Option-cases,
}
use harnessing.Table.{find, record_of}

pub str_eq_refl : (s : String) → str_eq s s ≡ true
str_eq_refl s = (eq_iff s s).1 refl

pub str_ne : (s t : String) → s ≢ t → str_eq s t ≡ false
str_ne s t h = elim (Bool-cases (str_eq s t)) [ inl e ↦ absurd (h ((eq_iff s t).0 e)) | inr e ↦ e ]

module _ {A : Type 0} (key : A → String) where
  -- What is found has the identifier.
  pub key-find :
      (k : String) (xs : List A) {i : ℕ} {x : A} → find key k xs ≡ some (i, x) → key x ≡ k
  unfolding find
  key-find k [] h = cc
  key-find k (y ∷ ys) h = elim (Option-cases (find key k ys)) [
    | inl e ↦ ground (arith, eq_iff (key y) k)
    | inr ((j, z), e) ↦ ground (arith, eq_iff (key y) k, key-find k ys e)
  ]

  pub find-append :
      (k : String) (xs : List A) (y : A)
      → record_of (find key k (xs ++ y ∷ []))
        ≡ record_of (elim (find key k xs) [
          | none ↦ if str_eq (key y) k then some (length xs, y) else none
          | some p ↦ some p
        ])
  unfolding find
  find-append k [] y = ground arith
  find-append k (x ∷ xs) y = ground (arith, find-append k xs y)

  -- A write at the place that was found, under the same identifier, changes that record alone.
  pub find-set :
      (k j : String) (xs : List A) (i : ℕ) (x y : A)
      → find key k xs ≡ some (i, x)
      → key y ≡ k
      → find key j (set xs i y) ≡ (if str_eq k j then some (i, y) else find key j xs)
  unfolding find set
  find-set k j [] i x y h e = cc
  find-set k j (z ∷ zs) i x y h e = elim (Option-cases (find key k zs)) [
    | inl n ↦ ground (arith, eq_iff (key z) k, eq_iff (key z) j, eq_iff k j, eq_iff (key y) j)
    | inr ((m, w), f) ↦ ground (
      arith,
      eq_iff (key z) k,
      eq_iff (key z) j,
      eq_iff k j,
      eq_iff (key y) j,
      find-set k j zs m w y f e,
    )
  ]

  -- In a table without duplicates the identifier decides the record.
  abbrev pub Unique : List A → Type 0
  Unique [] = Unit
  Unique (x ∷ xs) = (find key (key x) xs ≡ none) × Unique xs

  module _ (P Q : A → Type 0) (k : String) (others : (w : A) → key w ≢ k → P w → Q w) where
    All-absent : (xs : List A) → All P xs → find key k xs ≡ none → All Q xs
    unfolding find
    All-absent [] a h = tt
    All-absent (y ∷ ys) a h =
        (others y (λ e. cc (h, (eq_iff (key y) k).1 e)) a.0, All-absent ys a.1 (ground arith))

    -- A write at the place of `k` needs `Q` of the new record, and of the others that they keep it.
    pub All-update :
        (xs : List A) (i : ℕ) (x z : A)
        → Unique xs
        → All P xs
        → find key k xs ≡ some (i, x)
        → Q z
        → All Q (set xs i z)
    unfolding find set
    All-update [] i x z u a h q = tt
    All-update (y ∷ ys) i x z u a h q = elim (Bool-cases (str_eq (key y) k)) [
      | inl c ↦
          let e : i ≡ 0 = ground arith in
          let absent : find key k ys ≡ none = cc (u.0, (eq_iff (key y) k).0 c) in
          rw e (q, All-absent ys a.1 absent)
      | inr c ↦ elim (Option-cases (find key k ys)) [
        | inl n ↦ absurd (ground arith)
        | inr ((m, w), f) ↦
            let e : i ≡ suc m = ground arith in
            let distinct : key y ≢ k = λ p. cc (c, (eq_iff (key y) k).1 p) in
            rw e (others y distinct a.0, All-update ys m w z u.1 a.1 f q)
      ]
    ]

  pub All-find :
      (P : A → Type 0) (k : String) (xs : List A) {i : ℕ} {x : A}
      → All P xs
      → find key k xs ≡ some (i, x)
      → P x
  unfolding find
  All-find P k [] a h = absurd (cc)
  All-find P k (y ∷ ys) {x = x} a h = elim (Bool-cases (str_eq (key y) k)) [
    | inl c ↦ let e : y ≡ x = ground arith in subst P e a.0
    | inr c ↦ elim (Option-cases (find key k ys)) [
      | inl n ↦ absurd (ground arith)
      | inr ((m, w), f) ↦ let e : w ≡ x = ground arith in subst P e (All-find P k ys a.1 f)
    ]
  ]

  find-append_none :
      (k : String) (xs : List A) (y : A)
      → find key k xs ≡ none
      → key y ≢ k
      → find key k (xs ++ y ∷ []) ≡ none
  unfolding find
  find-append_none k [] y h d = ground (arith, eq_iff (key y) k)
  find-append_none k (x ∷ xs) y h d = ground (arith, find-append_none k xs y)

  pub Unique-append :
      (xs : List A) (y : A) → Unique xs → find key (key y) xs ≡ none → Unique (xs ++ y ∷ [])
  unfolding find
  Unique-append [] y u h = (refl, tt)
  Unique-append (x ∷ xs) y u h = (
    find-append_none (key x) xs y u.0 (λ e. cc (h, (eq_iff (key x) (key y)).1 (sym e))),
    Unique-append xs y u.1 (ground arith),
  )

  pub Unique-set :
      (k : String) (xs : List A) (i : ℕ) (x y : A)
      → Unique xs
      → find key k xs ≡ some (i, x)
      → key y ≡ k
      → Unique (set xs i y)
  unfolding find set
  Unique-set k [] i x y u h e = tt
  Unique-set k (z ∷ zs) i x y u h e = elim (Bool-cases (str_eq (key z) k)) [
    | inl c ↦
        let p : i ≡ 0 = ground arith in
        let absent : find key (key y) zs ≡ none = cc (u.0, e, (eq_iff (key z) k).0 c) in
        rw p (absent, u.1)
    | inr c ↦ elim (Option-cases (find key k zs)) [
      | inl n ↦ absurd (ground arith)
      | inr ((m, w), f) ↦
          let p : i ≡ suc m = ground arith in
          let absent : find key (key z) (set zs m y) ≡ none =
            ground (arith, find-set k (key z) zs m w y f e, eq_iff k (key z), eq_iff (key z) k) in
          rw p (absent, Unique-set k zs m w y u.1 f e)
    ]
  ]
