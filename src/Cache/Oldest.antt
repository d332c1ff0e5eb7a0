-- ===== src/Cache/Oldest.antt =====
-- `maybeDeleteOldest`, whose loop ends.
use proxy_speedtest.Prelude.{
  ℕ, zero, suc, ◌≤◌, ◌≡◌, refl, ap, ◌∙◌, Bool, true, false, List, [], ◌∷◌, leb, length, arith,
  Bool-cases, inl, inr,
}
use proxy_speedtest.Cache.{
  Keys, Cache, ages, is_old, delete_element, delete_oldest, maybe_delete_oldest,
}
use proxy_speedtest.Cache.Steps.{delete_oldest-round, delete_oldest-empty, delete_element-lru}

-- The test of the loop.
abbrev pub old : {K V : Type 0} → ℕ → Cache K V → Bool
old now c = is_old now c.lru c

module _ {K V : Type 0} (q : Keys K) where
  delete_oldest-Ends :
      (now f : ℕ) (is : List ℕ) (c : Cache K V)
      → c.lru ≡ is
      → length is ≤ f
      → old now (delete_oldest q now f c) ≡ false
  delete_oldest-Ends now f [] c e l =
      rw (delete_oldest-empty q now f c e) (ap (λ a. is_old now a c) e)
  delete_oldest-Ends now zero (i ∷ is) c e l = absurd (omega arith)
  delete_oldest-Ends now (suc f) (i ∷ is) c e l =
      let rest =
        delete_oldest-Ends now f is (delete_element q i c) (delete_element-lru q c i is e)
          (omega arith) in
      rw (delete_oldest-round q now f (i ∷ is) c e)
        (elim (Bool-cases (leb (c.heap i).expires now)) [
          | inl y ↦ rw y rest
          | inr n ↦ rw n (ap (λ a. is_old now a c) e ∙ n)
        ])

  -- Where entries age, the loop has ended when `maybeDeleteOldest` returns: the oldest entry that is
  -- left is not out of date.
  pub maybe_delete_oldest-Ends :
      (now : ℕ) (c : Cache K V) → ages c ≡ true → old now (maybe_delete_oldest q now c) ≡ false
  unfolding maybe_delete_oldest
  maybe_delete_oldest-Ends now c a =
      rw a (delete_oldest-Ends now (length c.lru) c.lru c refl (omega arith))
