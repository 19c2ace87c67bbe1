-- ===== src/Sha1/Streaming.antt =====
-- src/sha1.c, sha1_update: data may come in any portions.
use ps5torrent.Base.{
  ℕ, ◌+◌, ◌-◌, ◌*◌, ◌/◌, ◌%◌, ◌^◌, ◌<◌, ◌≤◌, ◌≡◌, refl, ap, sym, ◌∙◌, subst, ◌++◌, true, List, [],
  ◌∷◌, Bytes, length, length-append, append_assoc, append-nil, take, drop, ltb, ◌==◌, All,
  All-append, arith, take-append-drop, drop_all, length-take, length-drop, if_cases,
}
use ps5torrent.Sha1.Transform.{Words, sha1_transform}
use ps5torrent.Sha1.Context.{Sha1Ctx, copy_at, sha1_init, whole_blocks, update_from, sha1_update}
use ps5torrent.Sha1.Blocks.{
  IsBlock, joined, absorb, joined-append, absorb-append, length-joined, copy_at_lem,
  whole_blocks_lem, Absorbed, initial,
}

-- A fresh context has the empty message, whatever bytes its buffer has.
pub sha1_init-Absorbed : (buffer : Bytes) → length buffer ≡ 64 → Absorbed (sha1_init buffer) []
unfolding sha1_init
sha1_init-Absorbed buffer h =
    ([], [], buffer, tt, refl, omega arith, refl, omega arith, refl, omega (arith, h))

-- The number of the bytes that wait in the buffer is read off the count.
pub waiting :
    (bs : List Bytes) (rest : Bytes) (n : ℕ)
    → All IsBlock bs
    → length rest < 64
    → n ≡ length (joined bs ++ rest)
    → n * 8 % 2 ^ 64 / 8 % 64 ≡ length rest
waiting bs rest n full l e =
    omega (arith, e, l, length-append (joined bs) rest, length-joined bs full)

-- With an empty buffer, from whole blocks on.
update_from-Absorbed :
    (bs : List Bytes) (count : ℕ) (buffer bytes : Bytes)
    → All IsBlock bs
    → length buffer ≡ 64
    → count ≡ length (joined bs ++ bytes) * 8 % 2 ^ 64
    → Absorbed (update_from (absorb initial bs) count buffer bytes) (joined bs ++ bytes)
unfolding update_from
update_from-Absorbed bs count buffer bytes full b c =
    let (bs', full', j, l, a) =
      whole_blocks_lem (length bytes) (absorb initial bs) bytes (omega arith) in
    let rest = (whole_blocks (length bytes) (absorb initial bs) bytes).1 in
    let fits : length rest ≤ length buffer = omega (arith, b, l) in
    (
      bs ++ bs',
      rest,
      drop (length rest) buffer,
      All-append IsBlock bs bs' full full',
      ap (λ t. joined bs ++ t) j
          ∙ (sym (append_assoc (joined bs) (joined bs') rest)
              ∙ ap (λ t. t ++ rest) (sym (joined-append bs bs'))),
      l,
      a ∙ sym (absorb-append initial bs bs'),
      c,
      copy_at_lem [] buffer rest 0 refl fits,
      omega (arith, length-drop (length rest) buffer, b, fits),
    )

length_zero : (xs : Bytes) → (length xs == 0) ≡ true → xs ≡ []
length_zero [] h = refl
length_zero (x ∷ xs) h = absurd (ground arith)

-- The three ways through sha1_update, from a context that has `joined bs ++ rest`.
module _ (bs : List Bytes) (rest tail bytes : Bytes) (count : ℕ) (full : All IsBlock bs)
    (t : length rest + length tail ≡ 64)
    (c : count ≡ length (joined bs ++ rest ++ bytes) * 8 % 2 ^ 64) where
  abbrev start : Words
  start = absorb initial bs

  -- Nothing waits in the buffer.
  update_empty :
      rest ≡ []
      → Absorbed (update_from start count (rest ++ tail) bytes) (joined bs ++ rest ++ bytes)
  update_empty e =
      let m = ap (λ r. joined bs ++ r ++ bytes) e ∙ ap (λ r. r ++ bytes) (append-nil (joined bs)) in
      subst (λ x. Absorbed (update_from start count (rest ++ tail) bytes) x) (sym m)
        (update_from-Absorbed bs count (rest ++ tail) bytes full
          (omega (arith, t, length-append rest tail))
          (subst (λ x. count ≡ length x * 8 % 2 ^ 64) m c))

  -- The data does not fill the buffer.
  update_short :
      length rest + length bytes < 64
      → Absorbed
          (record {
            state = start;
            count = count;
            buffer = copy_at (rest ++ tail) (length rest) bytes;
          })
          (joined bs ++ rest ++ bytes)
  update_short h =
      let fits : length bytes ≤ length tail = omega (arith, t, h) in
      (
        bs,
        rest ++ bytes,
        drop (length bytes) tail,
        full,
        append_assoc (joined bs) rest bytes,
        omega (arith, length-append rest bytes, h),
        refl,
        c,
        copy_at_lem rest tail bytes (length rest) refl fits ∙ sym (append_assoc rest bytes _),
        omega (arith, length-append rest bytes, length-drop (length bytes) tail, t, fits),
      )

  -- The data fills the buffer, and goes on.
  abbrev fill : ℕ
  fill = 64 - length rest

  abbrev block : Bytes
  block = rest ++ take fill bytes

  block_IsBlock : 64 ≤ length rest + length bytes → length block ≡ 64
  block_IsBlock h =
      omega (arith, h, t, length-append rest (take fill bytes), length-take fill bytes)

  filled :
      64 ≤ length rest + length bytes
      → copy_at (rest ++ tail) (length rest) (take fill bytes) ≡ block
  filled h =
      let n : length (take fill bytes) ≡ length tail =
        omega (arith, h, t, length-take fill bytes) in
      copy_at_lem rest tail (take fill bytes) (length rest) refl (omega (arith, n))
      ∙ (ap (λ x. rest ++ (take fill bytes ++ x)) (drop_all (length (take fill bytes)) tail (sym n))
          ∙ ap (λ x. rest ++ x) (append-nil (take fill bytes)))

  -- The message in front of the buffer's data and behind it.
  regrouped : joined (bs ++ block ∷ []) ++ drop fill bytes ≡ joined bs ++ rest ++ bytes
  regrouped =
      ap (λ x. x ++ drop fill bytes)
        (joined-append bs (block ∷ [])
          ∙ (ap (λ x. joined bs ++ x) (append-nil block)
              ∙ sym (append_assoc (joined bs) rest (take fill bytes))))
      ∙ (append_assoc (joined bs ++ rest) (take fill bytes) (drop fill bytes)
          ∙ ap (λ x. joined bs ++ rest ++ x) (take-append-drop fill bytes))

  update_full :
      64 ≤ length rest + length bytes
      → let b = copy_at (rest ++ tail) (length rest) (take fill bytes) in
        Absorbed
          (update_from (sha1_transform start b) count b (drop fill bytes))
          (joined bs ++ rest ++ bytes)
  update_full h = rw (filled h) (
      subst
        (λ x. Absorbed (update_from x count block (drop fill bytes)) (joined bs ++ rest ++ bytes))
        (absorb-append initial bs (block ∷ []))
        (subst
          (λ x.
            Absorbed (update_from (absorb initial (bs ++ block ∷ [])) count block (drop fill bytes))
              x)
          regrouped
          (update_from-Absorbed (bs ++ block ∷ []) count block (drop fill bytes)
            (All-append IsBlock bs (block ∷ []) full (block_IsBlock h, tt)) (block_IsBlock h)
            (subst (λ x. count ≡ length x * 8 % 2 ^ 64) (sym regrouped) c))))

abbrev pub held : List Bytes → Bytes → Bytes → ℕ → Sha1Ctx
held bs rest tail count = record { state = absorb initial bs; count = count; buffer = rest ++ tail }

sha1_update-held :
    (bs : List Bytes) (rest tail bytes : Bytes) (count : ℕ)
    → All IsBlock bs
    → length rest < 64
    → length rest + length tail ≡ 64
    → count ≡ length (joined bs ++ rest) * 8 % 2 ^ 64
    → Absorbed (sha1_update (held bs rest tail count) bytes) (joined bs ++ rest ++ bytes)
unfolding sha1_update
sha1_update-held bs rest tail bytes count full l t c =
    let idx : count / 8 % 64 ≡ length rest = rw c (waiting bs rest _ full l refl) in
    let next : (count + length bytes * 8) % 2 ^ 64
        ≡ length (joined bs ++ rest ++ bytes) * 8 % 2 ^ 64 =
      omega (arith, c, length-append (joined bs ++ rest) bytes) in
    let IsHeld : Sha1Ctx → Type 0 = λ x. Absorbed x (joined bs ++ rest ++ bytes) in
    rw idx (
      if_cases IsHeld (length rest == 0)
        (λ e. update_empty bs rest tail bytes _ full t next (length_zero rest e))
        (λ _.
          if_cases IsHeld (ltb (length bytes) (64 - length rest))
            (λ e. update_short bs rest tail bytes _ full t next (ground arith))
            (λ e. update_full bs rest tail bytes _ full t next (ground arith))))

-- A context that has a message has the message with the data behind it after sha1_update, also
-- where the count of bits wraps.
pub sha1_update-Absorbed :
    (ctx : Sha1Ctx) (message bytes : Bytes)
    → Absorbed ctx message
    → Absorbed (sha1_update ctx bytes) (message ++ bytes)
sha1_update-Absorbed ctx message bytes (bs, rest, tail, full, m, l, s, c, b, t) =
    let e : ctx ≡ held bs rest tail ctx.count =
      ap (λ x. record { state = x; count = ctx.count; buffer = ctx.buffer }) s
      ∙ ap (λ x. record { state = absorb initial bs; count = ctx.count; buffer = x }) b in
    subst (λ x. Absorbed (sha1_update x bytes) (message ++ bytes)) (sym e)
      (subst (λ x. Absorbed (sha1_update (held bs rest tail ctx.count) bytes) (x ++ bytes)) (sym m)
        (sha1_update-held bs rest tail bytes ctx.count full l t
          (subst (λ x. ctx.count ≡ length x * 8 % 2 ^ 64) m c)))
