-- ===== src/Raft/Append/Deliver.antt =====
-- The commit loop of src/raft/raft.go: which messages it sends, and when it reads past the log.
use native.Mathlib.Nat.{add-zero}
use code2go.Prelude.{
  ℕ, zero, suc, ◌+◌, ◌≤◌, ◌<◌, ◌≡◌, refl, none, some, List, [], ◌∷◌, ◌++◌, length, get_elem?,
  get_elem?-some, get_elem?-none, arith, ap, inl, inr, Option-cases,
}
use code2go.Raft.State.{Entry, ApplyMsg}
use code2go.Raft.Append.{apply_msg, deliver}

module _ {C : Type 0} (logs : List (Entry C)) where
  pub deliver_total :
      (i n : ℕ) → i + n ≤ length logs → (msgs : List (ApplyMsg C)) × (deliver logs i n ≡ some msgs)
  unfolding deliver
  deliver_total i zero h = ([], refl)
  deliver_total i (suc n) h =
      let (e, found) = get_elem?-some logs i (omega arith) in
      let (msgs, rest) = deliver_total (i + 1) n (omega arith) in
      (apply_msg i e ∷ msgs, ground arith)

  -- No round, no message.
  pub deliver_none : (i n : ℕ) → n ≡ 0 → (msgs : List (ApplyMsg C)) × (deliver logs i n ≡ some msgs)
  unfolding deliver
  deliver_none i zero h = ([], refl)
  deliver_none i (suc n) h = absurd (omega arith)

  pub deliver_fault : (i n : ℕ) → 0 < n → length logs < i + n → deliver logs i n ≡ none
  unfolding deliver
  deliver_fault i zero p h = absurd (omega arith)
  deliver_fault i (suc zero) p h = ground (arith, get_elem?-none logs i (omega arith))
  deliver_fault i (suc (suc n)) p h =
      ground (arith, deliver_fault (i + 1) (suc n) (omega arith) (omega arith))

  -- The first message and the rest.
  pub deliver_cons :
      (i n : ℕ) (msgs : List (ApplyMsg C))
      → deliver logs i (suc n) ≡ some msgs
      → (e : Entry C) × (rest : List (ApplyMsg C)) × (get_elem? logs i ≡ some e)
        × (deliver logs (i + 1) n ≡ some rest)
        × (msgs ≡ apply_msg i e ∷ rest)
  unfolding deliver
  deliver_cons i n msgs h = elim (Option-cases (get_elem? logs i)) [
    | inl none_there ↦ ground arith
    | inr (e, found) ↦ elim (Option-cases (deliver logs (i + 1) n)) [
      | inl fault ↦ ground arith
      | inr (rest, done) ↦ (e, rest, found, done, ground arith)
    ]
  ]

  -- Two runs of the loop, the second from where the first one ended, are one.
  pub deliver-append :
      (i m n : ℕ) (xs ys : List (ApplyMsg C))
      → deliver logs i m ≡ some xs
      → deliver logs (i + m) n ≡ some ys
      → deliver logs i (m + n) ≡ some (xs ++ ys)
  unfolding deliver
  deliver-append i zero n xs ys p q = let e : xs ≡ [] = ground arith in rw e (ground arith)
  deliver-append i (suc m) n xs ys p q =
      let (e, rest, found, done, eq) = deliver_cons i m xs p in
      let tail = deliver-append (i + 1) m n rest ys done (ground arith) in
      let count : suc m + n ≡ suc (m + n) = omega arith in rw (eq, count, deliver, found, tail) refl

  pub length-deliver :
      (i n : ℕ) (msgs : List (ApplyMsg C)) → deliver logs i n ≡ some msgs → length msgs ≡ n
  unfolding deliver
  length-deliver i zero msgs h = ground arith
  length-deliver i (suc n) msgs h =
      let (e, rest, found, done, eq) = deliver_cons i n msgs h in
      rw eq (ap suc (length-deliver (i + 1) n rest done))

  -- The message at place `k` carries the command at `i + k` and its index, counted from 1.
  pub get_elem?-deliver :
      (i n k : ℕ) (msgs : List (ApplyMsg C))
      → deliver logs i n ≡ some msgs
      → k < n
      → (e : Entry C) × (get_elem? logs (i + k) ≡ some e)
        × (get_elem? msgs k ≡ some (apply_msg (i + k) e))
  get_elem?-deliver i zero k msgs h lt = absurd (omega arith)
  get_elem?-deliver i (suc n) zero msgs h lt =
      let (e, rest, found, done, eq) = deliver_cons i n msgs h in
      (e, rw add-zero found, rw (eq, add-zero))
  get_elem?-deliver i (suc n) (suc k) msgs h lt =
      let (e, rest, found, done, eq) = deliver_cons i n msgs h in
      let shift : i + 1 + k ≡ i + suc k = omega arith in
      rw (eq, ← shift) (get_elem?-deliver (i + 1) n k rest done (omega arith))
