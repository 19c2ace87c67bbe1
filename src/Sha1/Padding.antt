-- ===== src/Sha1/Padding.antt =====
-- src/sha1.c, sha1_final: the padding of FIPS 180.
use ps5torrent.Base.{
  ℕ, zero, suc, ◌+◌, ◌-◌, ◌*◌, ◌%◌, ◌<◌, ◌≤◌, ◌≡◌, refl, ap, sym, ◌∙◌, subst, ◌++◌, List, [], ◌∷◌,
  Bytes, length, length-append, append_assoc, append-nil, drop, replicate, length-replicate, ltb,
  All, arith, drop_all, length-drop, if_cases,
}
use ps5torrent.Sha1.Transform.{Words, sha1_transform}
use ps5torrent.Sha1.Context.{copy_at, big_endian64, digest, final_from}
use ps5torrent.Sha1.Blocks.{IsBlock, joined, absorb, copy_at_lem}

abbrev pub zeros : ℕ → Bytes
zeros n = replicate n 0

-- The message, a byte 0x80, zeros up to eight bytes before the end of a block, and the message's
-- length in bits.
abbrev pub pad : Bytes → Bytes
pad message =
    message
    ++ (0x80 ∷ zeros ((119 - length message % 64) % 64) ++ big_endian64 (length message * 8))

-- `n` is the digest of the blocks that `padded` falls into.
abbrev pub IsDigest : Words → Bytes → Bytes → Type 0
IsDigest s padded n =
    (bs : List Bytes) × All IsBlock bs × (joined bs ≡ padded) × (n ≡ digest (absorb s bs))

eight : (bits : ℕ) → length (big_endian64 bits) ≡ 8
unfolding big_endian64
eight bits = refl

eight_and : (bits : ℕ) → length (zeros 56 ++ big_endian64 bits) ≡ 64
unfolding big_endian64
eight_and bits = refl

zeros_add : (a b : ℕ) → zeros (a + b) ≡ zeros a ++ zeros b
zeros_add zero b = ap zeros (omega arith)
zeros_add (suc a) b =
    let e : suc a + b ≡ suc (a + b) = omega arith in ap zeros e ∙ ap (λ t. 0 ∷ t) (zeros_add a b)

-- The length goes into the last eight bytes.
last_block :
    (p m : Bytes) (bits : ℕ)
    → length p ≡ 56
    → length m ≡ 8
    → copy_at (p ++ m) 56 (big_endian64 bits) ≡ p ++ big_endian64 bits
last_block p m bits e d =
    copy_at_lem p m (big_endian64 bits) 56 (sym e) (omega (arith, d, eight bits))
    ∙ (ap (λ t. p ++ (big_endian64 bits ++ t)) (drop_all _ m (d ∙ sym (eight bits)))
        ∙ ap (λ t. p ++ t) (append-nil (big_endian64 bits)))

module _ (bits idx : ℕ) (s : Words) (pre mid : Bytes) (i : idx ≡ length pre)
    (t : length pre + length mid ≡ 64) where
  -- The zeros and the length fit into the block.
  abbrev short : Bytes
  short = copy_at (copy_at (pre ++ mid) idx (zeros (56 - idx))) 56 (big_endian64 bits)

  short_eq : idx ≤ 56 → short ≡ pre ++ zeros (56 - idx) ++ big_endian64 bits
  short_eq h =
      let z = length-replicate {A = ℕ} (56 - idx) 0 in
      ap (λ b. copy_at b 56 (big_endian64 bits))
        (copy_at_lem pre mid (zeros (56 - idx)) idx i (omega (arith, i, t, z, h))
          ∙ sym (append_assoc pre (zeros (56 - idx)) _))
      ∙ last_block (pre ++ zeros (56 - idx)) (drop (length (zeros (56 - idx))) mid) bits
          (omega (arith, length-append pre (zeros (56 - idx)), z, i, h))
          (omega (arith, length-drop (length (zeros (56 - idx))) mid, z, i, t, h))

  short_lem :
      idx ≤ 56
      → IsDigest s
          (pre ++ (zeros (56 - idx) ++ big_endian64 bits))
          (digest (sha1_transform s short))
  short_lem h =
      let z = length-replicate {A = ℕ} (56 - idx) 0 in
      let full : length (pre ++ zeros (56 - idx) ++ big_endian64 bits) ≡ 64 = omega (
        arith,
        length-append (pre ++ zeros (56 - idx)) (big_endian64 bits),
        length-append pre (zeros (56 - idx)),
        z,
        i,
        h,
        eight bits,
      ) in
      (
        (pre ++ zeros (56 - idx) ++ big_endian64 bits) ∷ [],
        (full, tt),
        append-nil _ ∙ append_assoc pre (zeros (56 - idx)) (big_endian64 bits),
        ap (λ b. digest (sha1_transform s b)) (short_eq h),
      )

  -- They do not: zeros fill the block, and another one follows.
  abbrev over : Bytes
  over = copy_at (pre ++ mid) idx (zeros (64 - idx))

  abbrev next : Bytes
  next = copy_at (copy_at over 0 (zeros 56)) 56 (big_endian64 bits)

  over_eq : idx ≤ 64 → over ≡ pre ++ zeros (64 - idx)
  over_eq h =
      let z = length-replicate {A = ℕ} (64 - idx) 0 in
      copy_at_lem pre mid (zeros (64 - idx)) idx i (omega (arith, i, t, z))
      ∙ (ap (λ x. pre ++ (zeros (64 - idx) ++ x))
            (drop_all (length (zeros (64 - idx))) mid (omega (arith, i, t, z)))
          ∙ ap (λ x. pre ++ x) (append-nil (zeros (64 - idx))))

  over_IsBlock : idx ≤ 64 → length (pre ++ zeros (64 - idx)) ≡ 64
  over_IsBlock h =
      omega
        (arith, length-append pre (zeros (64 - idx)), length-replicate {A = ℕ} (64 - idx) 0, i, h)

  next_eq : idx ≤ 64 → next ≡ zeros 56 ++ big_endian64 bits
  next_eq h =
      let l : length over ≡ 64 = ap length (over_eq h) ∙ over_IsBlock h in
      ap (λ b. copy_at b 56 (big_endian64 bits))
        (copy_at_lem [] over (zeros 56) 0 refl (omega (arith, l)))
      ∙ last_block (zeros 56) (drop 56 over) bits refl (omega (arith, length-drop 56 over, l))

  long_lem :
      idx ≤ 64
      → IsDigest s
          (pre ++ (zeros (64 - idx) ++ (zeros 56 ++ big_endian64 bits)))
          (digest (sha1_transform (sha1_transform s over) next))
  unfolding big_endian64
  long_lem h = (
    (pre ++ zeros (64 - idx)) ∷ (zeros 56 ++ big_endian64 bits) ∷ [],
    (over_IsBlock h, (eight_and bits, tt)),
    append_assoc pre (zeros (64 - idx)) (zeros 56 ++ big_endian64 bits),
    ap (λ b. digest (sha1_transform (sha1_transform s b) next)) (over_eq h)
        ∙ ap (λ b. digest (sha1_transform (sha1_transform s (pre ++ zeros (64 - idx))) b))
            (next_eq h),
  )

  -- Both ways write the zeros that the padding asks for.
  pub final_from_lem :
      idx < 64
      → IsDigest s
          (pre ++ (zeros ((120 - idx) % 64) ++ big_endian64 bits))
          (final_from bits idx s (pre ++ mid))
  unfolding final_from
  final_from_lem h =
      if_cases (IsDigest s (pre ++ (zeros ((120 - idx) % 64) ++ big_endian64 bits))) (ltb 56 idx)
        (λ e.
          let n : 64 - idx + 56 ≡ (120 - idx) % 64 = ground arith in
          let z =
            sym (append_assoc (zeros (64 - idx)) (zeros 56) (big_endian64 bits))
            ∙ ap (λ x. x ++ big_endian64 bits) (sym (zeros_add (64 - idx) 56) ∙ ap zeros n) in
          subst (λ x. IsDigest s (pre ++ x) (digest (sha1_transform (sha1_transform s over) next)))
            z (long_lem (omega arith)))
        (λ e.
          let n : 56 - idx ≡ (120 - idx) % 64 = ground arith in
          subst
            (λ x.
              IsDigest s (pre ++ (zeros x ++ big_endian64 bits)) (digest (sha1_transform s short)))
            n (short_lem (ground arith)))
