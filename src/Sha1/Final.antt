-- ===== src/Sha1/Final.antt =====
-- src/sha1.c, sha1_final: the digest of a message.
use ps5torrent.Base.{
  ℕ, suc, ◌+◌, ◌-◌, ◌*◌, ◌%◌, ◌^◌, ◌<◌, ◌≡◌, refl, ap, sym, ◌∙◌, subst, ◌++◌, List, [], ◌∷◌, Bytes,
  length, length-append, append_assoc, append-nil, ◌==◌, ==_iff, All, All-append, arith, if_cases,
}
use ps5torrent.Sha1.Transform.{Words, sha1_transform}
use ps5torrent.Sha1.Context.{
  Sha1Ctx, big_endian64, digest, final_from, sha1_final, sha1_init, sha1_update, sha1_hash,
}
use ps5torrent.Sha1.Blocks.{
  IsBlock, joined, absorb, joined-append, absorb-append, length-joined, Absorbed, initial,
  set_append,
}
use ps5torrent.Sha1.Padding.{zeros, pad, IsDigest, final_from_lem}
use ps5torrent.Sha1.Streaming.{waiting, held, sha1_init-Absorbed, sha1_update-Absorbed}

-- Blocks in front of those of a digest.
behind :
    (s : Words) (bs : List Bytes) (padded n : Bytes)
    → All IsBlock bs
    → IsDigest (absorb s bs) padded n
    → IsDigest s (joined bs ++ padded) n
behind s bs padded n full (cs, full', j, e) = (
  bs ++ cs,
  All-append IsBlock bs cs full full',
  joined-append bs cs ∙ ap (λ x. joined bs ++ x) j,
  e ∙ ap digest (sym (absorb-append s bs cs)),
)

-- The pad byte stands behind the data that waits.
abbrev marked : Bytes → Bytes
marked rest = rest ++ 0x80 ∷ []

-- The rest of the padding, for `r` bytes that wait.
abbrev filler : ℕ → ℕ → Bytes
filler r bits = zeros ((119 - r) % 64) ++ big_endian64 bits

final_last :
    (s : Words) (rest tail : Bytes) (bits : ℕ)
    → length rest + 1 ≡ 64
    → length rest + suc (length tail) ≡ 64
    → IsDigest s
        (rest ++ (0x80 ∷ filler (length rest) bits))
        (final_from bits 0 (sha1_transform s (rest ++ 0x80 ∷ tail)) (rest ++ 0x80 ∷ tail))
final_last s rest (x ∷ tail) bits r t = absurd (omega arith)
final_last s rest [] bits r t =
    let n : length (marked rest) ≡ 64 = omega (arith, r, length-append rest (0x80 ∷ [])) in
    let e : 56 ≡ (119 - length rest) % 64 = omega (arith, r) in
    let m : joined (marked rest ∷ []) ++ (zeros 56 ++ big_endian64 bits)
        ≡ rest ++ (0x80 ∷ filler (length rest) bits) =
      ap (λ x. x ++ (zeros 56 ++ big_endian64 bits)) (append-nil (marked rest))
      ∙ (append_assoc rest (0x80 ∷ []) (zeros 56 ++ big_endian64 bits)
          ∙ ap (λ x. rest ++ (0x80 ∷ (zeros x ++ big_endian64 bits))) e) in
    let n₂ = final_from bits 0 (sha1_transform s (marked rest)) (marked rest) in
    subst (λ x. IsDigest s x n₂) m
      (behind s (marked rest ∷ []) (zeros 56 ++ big_endian64 bits) n₂ (n, tt)
        (final_from_lem bits 0 (sha1_transform s (marked rest)) [] (marked rest) refl
          (omega (arith, n)) (omega arith)))

final_more :
    (s : Words) (rest tail : Bytes) (bits : ℕ)
    → length rest + 1 < 64
    → length rest + suc (length tail) ≡ 64
    → IsDigest s
        (rest ++ (0x80 ∷ filler (length rest) bits))
        (final_from bits (length rest + 1) s (rest ++ 0x80 ∷ tail))
final_more s rest tail bits r t =
    let n = length-append rest (0x80 ∷ []) in
    let e : (120 - (length rest + 1)) % 64 ≡ (119 - length rest) % 64 = omega (arith, r) in
    let m : marked rest ++ (zeros ((120 - (length rest + 1)) % 64) ++ big_endian64 bits)
        ≡ rest ++ (0x80 ∷ filler (length rest) bits) =
      append_assoc rest (0x80 ∷ []) _
      ∙ ap (λ x. rest ++ (0x80 ∷ (zeros x ++ big_endian64 bits))) e in
    subst (λ x. IsDigest s x (final_from bits (length rest + 1) s (rest ++ 0x80 ∷ tail))) m
      (subst
        (λ x.
          IsDigest s (marked rest ++ (zeros ((120 - (length rest + 1)) % 64) ++ big_endian64 bits))
            (final_from bits (length rest + 1) s x))
        (append_assoc rest (0x80 ∷ []) tail)
        (final_from_lem bits (length rest + 1) s (marked rest) tail (omega (arith, n))
          (omega (arith, n, t)) r))

sha1_final-held :
    (bs : List Bytes) (rest tail : Bytes)
    → All IsBlock bs
    → length rest < 64
    → length rest + length tail ≡ 64
    → length (joined bs ++ rest) < 2 ^ 61
    → IsDigest initial
        (pad (joined bs ++ rest))
        (sha1_final (held bs rest tail (length (joined bs ++ rest) * 8 % 2 ^ 64)))
unfolding sha1_final
sha1_final-held bs rest [] full l t small = absurd (omega arith)
sha1_final-held bs rest (x₀ ∷ tail) full l t small =
    let bits = length (joined bs ++ rest) * 8 in
    let exact : bits % 2 ^ 64 ≡ bits = omega (arith, small) in
    let r : length (joined bs ++ rest) % 64 ≡ length rest =
      omega (arith, l, length-append (joined bs) rest, length-joined bs full) in
    let IsResult : Bytes → Type 0 =
      λ n. IsDigest (absorb initial bs) (rest ++ (0x80 ∷ filler (length rest) bits)) n in
    let body : IsResult (sha1_final (held bs rest (x₀ ∷ tail) (bits % 2 ^ 64))) =
      rw
        (
          waiting bs rest (length (joined bs ++ rest)) full l refl,
          set_append rest tail x₀ 0x80,
          exact,
        )
        (if_cases IsResult (length rest + 1 == 64)
          (λ e. final_last (absorb initial bs) rest tail bits ((==_iff _ 64).0 e) t)
          (λ e. final_more (absorb initial bs) rest tail bits (ground arith) t)) in
    subst (λ x. IsDigest initial x (sha1_final (held bs rest (x₀ ∷ tail) (bits % 2 ^ 64))))
      (sym (append_assoc (joined bs) rest _)
        ∙ ap (λ k. joined bs ++ rest ++ (0x80 ∷ filler k bits)) (sym r))
      (behind initial bs _ _ full body)

-- The digest of a message of less than 2 ^ 61 bytes that a context has: the blocks of the padded
-- message, one after the other.
sha1_final-Absorbed :
    (ctx : Sha1Ctx) (message : Bytes)
    → Absorbed ctx message
    → length message < 2 ^ 61
    → IsDigest initial (pad message) (sha1_final ctx)
sha1_final-Absorbed ctx message (bs, rest, tail, full, m, l, s, c, b, t) small =
    let e : ctx ≡ held bs rest tail (length message * 8 % 2 ^ 64) =
      ap (λ x. record { state = x; count = ctx.count; buffer = ctx.buffer }) s
      ∙ (ap (λ x. record { state = absorb initial bs; count = x; buffer = ctx.buffer }) c
          ∙ ap
              (λ x. record {
                state = absorb initial bs;
                count = length message * 8 % 2 ^ 64;
                buffer = x;
              })
              b) in
    subst (λ x. IsDigest initial (pad message) (sha1_final x)) (sym e)
      (subst
        (λ x. IsDigest initial (pad x) (sha1_final (held bs rest tail (length x * 8 % 2 ^ 64))))
        (sym m) (sha1_final-held bs rest tail full l t (subst (λ x. length x < 2 ^ 61) m small)))

-- sha1_hash of a message of less than 2 ^ 61 bytes takes in the blocks of the padded message one
-- after the other, whatever the buffer on the stack was.
pub sha1_hash-pad :
    (stack message : Bytes)
    → length stack ≡ 64
    → length message < 2 ^ 61
    → IsDigest initial (pad message) (sha1_hash stack message)
unfolding sha1_hash
sha1_hash-pad stack message h small =
    sha1_final-Absorbed (sha1_update (sha1_init stack) message) message
      (sha1_update-Absorbed (sha1_init stack) [] message (sha1_init-Absorbed stack h)) small
