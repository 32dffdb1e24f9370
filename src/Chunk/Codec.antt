-- ===== src/Chunk/Codec.antt =====
-- Parsing gives back the chunk that was emitted.
use luks_android.Prelude.{ℕ, ◌+◌, ◌*◌, ◌^◌, ◌≤◌, ◌<◌, ◌≡◌, refl, arith, sym, ap, ap₂, ◌∙◌, bit_and}
use luks_android.Prelude.{
  List, [], ◌∷◌, ◌++◌, length, length-append, ge→ltb, ◌==◌, false, take, All,
}
use luks_android.Prelude.Words.{IsU64}
use luks_android.Prelude.Bytes.{
  from_le, slice, u16le, u64le, from_le-to_le, drop-append, take-append, drop-plus,
}
use luks_android.Error.{ok}
use luks_android.Chunk.{
  Stripe, Chunk, striped, parse_stripe, parse_stripes, parse, parse_fields, wraps,
}
use mathlib.Core.List.{append_assoc}
use luks_android.Chunk.{emit_stripe, emit_stripes, emit_head, emit}

pub record IsStripe (s : Stripe) : Type 0 where
  pub devid : IsU64 s.devid
  pub offset : IsU64 s.offset
  pub uuid : length s.dev_uuid ≡ 16

-- The fields fit their widths, and the values are those that the parser lets through.
pub record IsChunk (c : Chunk) : Type 0 where
  pub not_empty : 0 < c.length
  pub no_wrap : IsU64 (c.logical + c.length)
  pub owner : IsU64 c.owner
  pub stripe_len : IsU64 c.stripe_len
  pub chunk_type : IsU64 c.chunk_type
  pub io_align : c.io_align < 2 ^ 32
  pub io_width : c.io_width < 2 ^ 32
  pub sector_size : c.sector_size < 2 ^ 32
  pub sub_stripes : c.sub_stripes < 2 ^ 16
  pub some_stripe : 0 < length c.stripes
  pub few_stripes : length c.stripes < 2 ^ 16
  pub not_striped : bit_and c.chunk_type striped ≡ 0
  pub all_stripes : All IsStripe c.stripes

take_uuid : (uuid post : List ℕ) → length uuid ≡ 16 → take 16 (uuid ++ post) ≡ uuid
take_uuid uuid post e = ap (λ n. take n (uuid ++ post)) (sym e) ∙ take-append uuid post

parse_stripe-emit :
    (s : Stripe) (pre post : List ℕ)
    → IsStripe s
    → parse_stripe (pre ++ (emit_stripe s ++ post)) (length pre) ≡ s
parse_stripe-emit s pre post v =
    λ i. record { devid = devid i; offset = offset i; dev_uuid = uuid i }
  where
    bytes : List ℕ
    bytes = pre ++ (emit_stripe s ++ post)

    devid : u64le bytes (length pre) ≡ s.devid
    devid =
        ap (λ d. from_le (take 8 d)) (drop-append pre (emit_stripe s ++ post))
        ∙ from_le-to_le 8 s.devid v.devid

    offset : u64le bytes (length pre + 8) ≡ s.offset
    offset =
        ap (λ d. from_le (take 8 d)) (drop-plus pre (emit_stripe s ++ post) 8)
        ∙ from_le-to_le 8 s.offset v.offset

    uuid : slice bytes (length pre + 16) 16 ≡ s.dev_uuid
    uuid =
        ap (λ d. take 16 d) (drop-plus pre (emit_stripe s ++ post) 16)
        ∙ take_uuid s.dev_uuid post v.uuid

parse_stripes-emit :
    (ss : List Stripe) (pre : List ℕ)
    → All IsStripe ss
    → parse_stripes (length ss) (pre ++ emit_stripes ss) (length pre) ≡ ss
unfolding parse_stripes emit_stripes
parse_stripes-emit [] pre v = refl
parse_stripes-emit (s ∷ ss) pre v = ap₂ ◌∷◌ (parse_stripe-emit s pre (emit_stripes ss) v.0) (
    ap₂ (λ b n. parse_stripes (length ss) b n)
      (sym (append_assoc pre (emit_stripe s) (emit_stripes ss))) next
    ∙ parse_stripes-emit ss (pre ++ emit_stripe s) v.1)
  where
    next : length pre + 32 ≡ length (pre ++ emit_stripe s)
    next = omega (arith, length-append pre (emit_stripe s), v.0.uuid)

length-emit_stripes :
    (ss : List Stripe) → All IsStripe ss → length (emit_stripes ss) ≡ length ss * 32
unfolding emit_stripes
length-emit_stripes [] v = refl
length-emit_stripes (s ∷ ss) v =
    omega
      (arith, length-append (emit_stripe s) (emit_stripes ss), v.0.uuid, length-emit_stripes ss v.1)

pos-eq_zero : (x : ℕ) → 0 < x → (x == 0) ≡ false
pos-eq_zero x h = ground arith

no_wraps : (a b : ℕ) → IsU64 (a + b) → wraps a b ≡ false
no_wraps a b h = ground arith

-- What the guards of `parse` let through.
parse-ok :
    (logical : ℕ) (bytes : List ℕ) (n : ℕ)
    → u16le bytes 44 ≡ n
    → 48 + n * 32 ≤ length bytes
    → 0 < n
    → 0 < u64le bytes 0
    → IsU64 (logical + u64le bytes 0)
    → bit_and (u64le bytes 24) striped ≡ 0
    → parse logical bytes ≡ ok (parse_fields logical bytes n)
unfolding parse
parse-ok logical bytes n e l p q u t = rw (
  e,
  ge→ltb (length bytes) 48 (omega arith),
  pos-eq_zero n p,
  ge→ltb (length bytes) (48 + n * 32) l,
  pos-eq_zero (u64le bytes 0) q,
  no_wraps logical (u64le bytes 0) u,
  t,
)

module _ (c : Chunk) (v : IsChunk c) where
  bytes : List ℕ
  bytes = emit_head c ++ emit_stripes c.stripes

  parse_fields-emit : parse_fields c.logical bytes (length c.stripes) ≡ c
  unfolding bytes
  parse_fields-emit = λ i. record {
    logical = c.logical;
    length = from_le-to_le 8 c.length (omega (arith, v.no_wrap)) i;
    owner = from_le-to_le 8 c.owner v.owner i;
    stripe_len = from_le-to_le 8 c.stripe_len v.stripe_len i;
    chunk_type = from_le-to_le 8 c.chunk_type v.chunk_type i;
    io_align = from_le-to_le 4 c.io_align v.io_align i;
    io_width = from_le-to_le 4 c.io_width v.io_width i;
    sector_size = from_le-to_le 4 c.sector_size v.sector_size i;
    sub_stripes = from_le-to_le 2 c.sub_stripes v.sub_stripes i;
    stripes = parse_stripes-emit c.stripes (emit_head c) v.all_stripes i;
  }

  parse-bytes : parse c.logical bytes ≡ ok c
  parse-bytes =
      parse-ok c.logical bytes (length c.stripes) stripes_read long v.some_stripe
        (rw length_read v.not_empty) (rw length_read v.no_wrap) (rw type_read v.not_striped)
      ∙ ap ok parse_fields-emit
    where
      stripes_read : u16le bytes 44 ≡ length c.stripes
      stripes_read = unfold bytes in from_le-to_le 2 (length c.stripes) v.few_stripes

      length_read : u64le bytes 0 ≡ c.length
      length_read = unfold bytes in from_le-to_le 8 c.length (omega (arith, v.no_wrap))

      type_read : u64le bytes 24 ≡ c.chunk_type
      type_read = unfold bytes in from_le-to_le 8 c.chunk_type v.chunk_type

      long : 48 + length c.stripes * 32 ≤ length bytes
      long = unfold bytes in omega (arith, length-emit_stripes c.stripes v.all_stripes)

-- Parsing the emitted bytes of a well-formed chunk, under the logical address in the emitted key,
-- gives back the chunk: every field, and every stripe in order.
pub parse-emit : (c : Chunk) → IsChunk c → parse (emit c).0.offset (emit c).1 ≡ ok c
unfolding emit
parse-emit c v = unfold bytes in parse-bytes c v
