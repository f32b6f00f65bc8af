-- ===== src/Harness/Agree.antt =====
-- What a passed check of src/raft/config.go says.
use code2go.Prelude.{
  ℕ, zero, suc, ◌≡◌, ◌∙◌, true, false, Option, none, some, List, [], ◌∷◌, get_elem?, ◌==◌, arith,
  Bool-cases, inl, inr,
}
use code2go.Harness.{Seen, check_terms}

-- The term is that of the connected servers seen so far.
pub Agrees : Option ℕ → List Seen → Type 0
Agrees term servers =
    (i : ℕ) (s : Seen) → get_elem? servers i ≡ some s → s.connected ≡ true → term ≡ some s.term

check_terms_kept :
    (servers : List Seen) (t : ℕ) (result : Option ℕ)
    → check_terms servers (some t) ≡ some result
    → (result ≡ some t) × Agrees (some t) servers
unfolding check_terms Agrees
check_terms_kept [] t result h = (ground arith, λ i s at. ground arith)
check_terms_kept (s ∷ servers) t result h = elim (Bool-cases s.connected) [
  | inr off ↦
      let (same, rest) = check_terms_kept servers t result (ground (arith, off)) in
      (same, go off rest)
  | inl on ↦ elim (Bool-cases (t == s.term)) [
    | inr apart ↦ ground (arith, on, apart)
    | inl equal ↦
        let (same, rest) = check_terms_kept servers t result (ground (arith, on, equal)) in
        (same, here (ground arith) rest)
  ]
]
  where
    go : s.connected ≡ false → Agrees (some t) servers → Agrees (some t) (s ∷ servers)
    go off rest zero x at on = ground arith
    go off rest (suc i) x at on = rest i x at on

    here : t ≡ s.term → Agrees (some t) servers → Agrees (some t) (s ∷ servers)
    here same rest zero x at on = ground arith
    here same rest (suc i) x at on = rest i x at on

-- If the check of the terms passes, it returns the term of each server that is connected.
pub check_terms_agree :
    (servers : List Seen) (result : Option ℕ)
    → check_terms servers none ≡ some result
    → Agrees result servers
unfolding check_terms Agrees
check_terms_agree [] result h = λ i s at. ground arith
check_terms_agree (s ∷ servers) result h = elim (Bool-cases s.connected) [
  | inr off ↦ skip off (check_terms_agree servers result (ground (arith, off)))
  | inl on ↦
      let (same, rest) = check_terms_kept servers s.term result (ground (arith, on)) in
      first same rest
]
  where
    skip : s.connected ≡ false → Agrees result servers → Agrees result (s ∷ servers)
    skip off rest zero x at on = ground arith
    skip off rest (suc i) x at on = rest i x at on

    first : result ≡ some s.term → Agrees (some s.term) servers → Agrees result (s ∷ servers)
    first same rest zero x at on = ground arith
    first same rest (suc i) x at on = same ∙ rest i x at on
