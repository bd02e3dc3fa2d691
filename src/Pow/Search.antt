-- ===== src/Pow/Search.antt =====
-- The search returns, and what it returns is accepted.
use voxply_server.Common.{
  ℕ, zero, suc, ◌+◌, ◌%◌, ◌^◌, ◌<◌, ◌≤◌, ◌≡◌, true, String, leb, ltb, arith, Bool-cases, inl, inr,
  subst, ◌&&◌, sym, ap, unwrap_or,
}
use voxply_server.Crypto.{Crypto}
use voxply_server.Pow.{
  hash_level, search_from, start_level, compute_security_level, verify_security_level, better,
  found,
}

some_pair : {a b n l : ℕ} → found a b ≡ found n l → (a ≡ n) × (b ≡ l)
some_pair e =
    (ap (λ o. (unwrap_or {A = ℕ × ℕ} o (0, 0)).0) e, ap (λ o. (unwrap_or {A = ℕ × ℕ} o (0, 0)).1) e)

module _ (crypto : Crypto) (key : String) where
  -- what is returned for a nonce that has been found good enough
  Good : ℕ → ℕ → ℕ → Type 0
  Good target n l = (l ≡ hash_level crypto key n) × (target ≤ l)

  Good-of :
      (m n l target : ℕ)
      → target ≤ hash_level crypto key m
      → found m (hash_level crypto key m) ≡ found n l
      → Good target n l
  unfolding Good
  Good-of m n l target h e =
      let (a, b) = some_pair e in
      subst (λ t. (l ≡ hash_level crypto key t) × (target ≤ l)) a (sym b, omega (arith, b))

  search-Good :
      (fuel target nonce best n l : ℕ)
      → search_from crypto key fuel target nonce best ≡ found n l
      → Good target n l
  unfolding search_from
  search-Good zero target nonce best n l e = absurd (ground arith)
  search-Good (suc fuel) target nonce best n l e =
      let next = (nonce + 1) % 2 ^ 64 in
      let level = hash_level crypto key next in
      elim (Bool-cases (ltb best level && leb target level)) [
        | inl t ↦ Good-of next n l target (ground arith) (ground arith)
        | inr t ↦ search-Good fuel target next (better best level) n l (ground arith)
      ]

  -- The nonce that the search returns has the level that comes with it, and is accepted for the
  -- target.
  pub compute_security_level-verify :
      (fuel start target n l : ℕ)
      → compute_security_level crypto key fuel start target ≡ found n l
      → (l ≡ hash_level crypto key n) × (verify_security_level crypto key n target ≡ true)
  unfolding compute_security_level verify_security_level start_level Good
  compute_security_level-verify fuel start target n l e =
      let good : Good target n l =
        elim (Bool-cases (ltb 0 start && leb target (start_level crypto key start))) [
          | inl t ↦ Good-of start n l target (ground arith) (ground arith)
          | inr t ↦ search-Good fuel target start (start_level crypto key start) n l (ground arith)
        ] in
      (good.0, ground (arith, good.0, good.1))

  search-finds :
      (fuel target nonce best d : ℕ)
      → nonce + suc d < 2 ^ 64
      → d < fuel
      → best < target
      → target ≤ hash_level crypto key (nonce + suc d)
      → (n : ℕ) × (l : ℕ) × (search_from crypto key fuel target nonce best ≡ found n l)
        × (n ≤ nonce + suc d)
  unfolding search_from
  search-finds zero target nonce best d small enough low high = absurd (omega arith)
  search-finds (suc fuel) target nonce best zero small enough low high =
      let next = (nonce + 1) % 2 ^ 64 in
      let reached : nonce + 1 ≡ next = omega arith in
      let good = subst (λ t. target ≤ hash_level crypto key t) reached high in
      (next, hash_level crypto key next, ground arith, omega arith)
  search-finds (suc fuel) target nonce best (suc d) small enough low high =
      let next = (nonce + 1) % 2 ^ 64 in
      let level = hash_level crypto key next in
      elim (Bool-cases (leb target level)) [
        | inl t ↦ (next, level, ground arith, omega arith)
        | inr t ↦
            let ahead : nonce + suc (suc d) ≡ next + suc d = omega arith in
            let (n, l, e, near) =
              search-finds fuel target next (better best level) d (omega arith) (omega arith)
                (ground arith) (subst (λ t. target ≤ hash_level crypto key t) ahead high) in
            (n, l, ground arith, omega arith)
      ]

  -- If a nonce after the first one, `d + 1` further and in the range of `u64`, reaches a target above
  -- 0, then `d + 1` rounds of the search find one, at that nonce or before it.
  pub compute_security_level-finds :
      (fuel start target d : ℕ)
      → start + suc d < 2 ^ 64
      → d < fuel
      → 0 < target
      → target ≤ hash_level crypto key (start + suc d)
      → (n : ℕ) × (l : ℕ) × (compute_security_level crypto key fuel start target ≡ found n l)
        × (n ≤ start + suc d)
  unfolding compute_security_level start_level
  compute_security_level-finds fuel start target d small enough some_target high =
      elim (Bool-cases (ltb 0 start && leb target (start_level crypto key start))) [
        | inl t ↦ (start, start_level crypto key start, ground arith, omega arith)
        | inr t ↦
            let (n, l, e, near) =
              search-finds fuel target start (start_level crypto key start) d small enough
                (ground arith) high in
            (n, l, ground arith, near)
      ]
