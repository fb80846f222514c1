-- ===== src/Encoding/Roundtrip.antt =====
-- The reader of the ABI format gives back what the encoder was given.
use mathlib.Core.List.{flatten, map-map}
use gas_analyzer.Types.Tag.{discriminant, StateUpdateType}
use gas_analyzer.Encoding.{
  AbiSequence, update_type, update_data, write_u256_word, pad32_len, encode_bytes, write_offsets,
  encode_bytes_array, write_types, encode_types, encode_state_updates_to_abi,
}
use gas_analyzer.Encoding.Abi.{
  read_word, read_words, read_enums, read_body, read_elements, read_bytes_array, decode,
}
use gas_analyzer.Encoding.Length.{
  length-write_u256_word, length-encode_bytes, length-write_offsets, length-encode_types,
}
use gas_analyzer.Prelude.{
  ℕ, ◌+◌, ◌-◌, ◌*◌, ◌<◌, ◌≡◌, refl, sym, ap, ◌∙◌, subst, true, Option, some, List, [], ◌∷◌, ◌++◌,
  map, append-nil, append_assoc, arith, leb, tests, length, take, drop, replicate, length-append,
  take-append, drop-append, drop-append_add, length-map, u64_mod,
}
use gas_analyzer.Prelude.Bytes.{Bytes, be_bytes, read_be, read_be-be_bytes, read_be-replicate_zero}
use gas_analyzer.Types.{StateUpdate}

take_word : (n : ℕ) (rest : Bytes) → take 32 (write_u256_word n ++ rest) ≡ write_u256_word n
take_word n rest =
    subst (λ k. take k (write_u256_word n ++ rest) ≡ write_u256_word n) (length-write_u256_word n)
      (take-append (write_u256_word n) rest)

drop_word : (n : ℕ) (rest : Bytes) → drop 32 (write_u256_word n ++ rest) ≡ rest
drop_word n rest =
    subst (λ k. drop k (write_u256_word n ++ rest) ≡ rest) (length-write_u256_word n)
      (drop-append (write_u256_word n) rest)

read_be_word : (n : ℕ) → n < u64_mod → read_be 0 (write_u256_word n) ≡ n
unfolding write_u256_word
read_be_word n h = read_be-replicate_zero 16 (be_bytes 16 n) ∙ read_be-be_bytes 16 n (omega arith)

read_word_lem :
    (n : ℕ) (rest : Bytes) → n < u64_mod → read_word (write_u256_word n ++ rest) ≡ some n
read_word_lem n rest h = rw (fits, take_word n rest, read_be_word n h) refl
  where
    fits : leb 32 (length (write_u256_word n ++ rest)) ≡ true
    fits = omega (tests, length-append (write_u256_word n) rest, length-write_u256_word n)

read_words-write_types :
    (types : List StateUpdateType) (rest : Bytes)
    → read_words (length types) (write_types types ++ rest) ≡ some (map discriminant types)
unfolding read_words write_types
read_words-write_types [] rest = refl
read_words-write_types (t ∷ types) rest = rw append_assoc (
    rw (read_word_lem (discriminant t) (write_types types ++ rest) (discriminant-lt t)) (
      rw (drop_word (discriminant t) (write_types types ++ rest))
        (rw (read_words-write_types types rest))))
  where
    discriminant-lt : (x : StateUpdateType) → discriminant x < u64_mod
    discriminant-lt x = ground arith

read_enums-encode_types :
    (types : List StateUpdateType) (rest : Bytes)
    → length types < u64_mod
    → read_enums (encode_types types ++ rest) ≡ some (map discriminant types)
unfolding read_enums encode_types
read_enums-encode_types types rest h = rw append_assoc (
    rw (read_word_lem (length types) (write_types types ++ rest) h) (
      rw (drop_word (length types) (write_types types ++ rest))
        (read_words-write_types types rest)))

read_body-encode_bytes :
    (v rest : Bytes) → length v < u64_mod → read_body (encode_bytes v ++ rest) ≡ some v
unfolding read_body encode_bytes
read_body-encode_bytes v rest h =
    rw (append_assoc, append_assoc)
      (rw (read_word_lem (length v) (v ++ tail) h)
        (rw (drop_word (length v) (v ++ tail)) (rw (fits, take-append v tail))))
  where
    tail : Bytes
    tail = replicate (pad32_len (length v) - length v) 0 ++ rest

    fits : leb (length v) (length (v ++ tail)) ≡ true
    fits = omega (tests, length-append v tail)

-- The heads from one element on are read against the whole array: `before` is what the bodies of
-- the earlier elements, and all heads, take up in front of the bodies still to be read.
read_elements-write_offsets :
    (vs : List Bytes) (before rest heads : Bytes)
    → length (before ++ flatten (map encode_bytes vs)) < u64_mod
    → read_elements
        (length vs)
        (before ++ (flatten (map encode_bytes vs) ++ rest))
        (write_offsets (length before) (map encode_bytes vs) ++ heads)
      ≡ some vs
unfolding read_elements write_offsets flatten
read_elements-write_offsets [] before rest heads h = refl
read_elements-write_offsets (v ∷ vs) before rest heads h =
    let rest_of = read_elements-write_offsets vs next rest heads fits in
    rw append_assoc (
      rw (read_word_lem (length before) more (omega (arith, total))) (
        rw (drop-append before body) (
          rw (append_assoc (encode_bytes v) others rest) (
            rw (read_body-encode_bytes v (others ++ rest) (omega (arith, total)))
              (rw (drop_word (length before) more) (rw (shift rest_of)))))))
  where
    next : Bytes
    next = before ++ encode_bytes v

    others : Bytes
    others = flatten (map encode_bytes vs)

    body : Bytes
    body = (encode_bytes v ++ others) ++ rest

    more : Bytes
    more = write_offsets (length before + length (encode_bytes v)) (map encode_bytes vs) ++ heads

    total : length before + (32 + pad32_len (length v) + length others) < u64_mod
    total = omega (
      arith,
      h,
      length-append before (encode_bytes v ++ others),
      length-append (encode_bytes v) others,
      length-encode_bytes v,
    )

    fits : length (next ++ others) < u64_mod
    fits = subst (λ xs. length xs < u64_mod) (sym (append_assoc before (encode_bytes v) others)) h

    shift :
        read_elements
            (length vs)
            (next ++ (others ++ rest))
            (write_offsets (length next) (map encode_bytes vs) ++ heads)
          ≡ some vs
        → read_elements (length vs) (before ++ (encode_bytes v ++ (others ++ rest))) more ≡ some vs
    shift e = rw (append_assoc before, length-append before (encode_bytes v)) at e

read_bytes_array-encode_bytes_array :
    (vs : List Bytes) (rest : Bytes)
    → length (encode_bytes_array vs) < u64_mod
    → read_bytes_array (encode_bytes_array vs ++ rest) ≡ some vs
unfolding read_bytes_array encode_bytes_array
read_bytes_array-encode_bytes_array vs rest h = rw append_assoc (
    rw
      (read_word_lem (length vs) (body ++ rest)
        (omega (arith, total, size, length-append offsets (flatten encs))))
      (rw (drop_word (length vs) (body ++ rest)) (rw (append_assoc offsets) (heads elements))))
  where
    encs : List Bytes
    encs = map encode_bytes vs

    offsets : Bytes
    offsets = write_offsets (32 * length vs) encs

    body : Bytes
    body = offsets ++ flatten encs

    size : length offsets ≡ 32 * length vs
    size = omega (arith, length-write_offsets (32 * length vs) encs, length-map vs encode_bytes)

    total : 32 + length body < u64_mod
    total = omega (
      arith,
      h,
      length-append (write_u256_word (length vs)) body,
      length-write_u256_word (length vs),
    )

    elements :
        read_elements
          (length vs)
          (offsets ++ (flatten encs ++ rest))
          (write_offsets (length offsets) encs ++ (flatten encs ++ rest))
        ≡ some vs
    elements =
        read_elements-write_offsets vs offsets rest (flatten encs ++ rest) (omega (arith, total))

    heads :
        read_elements
            (length vs)
            (offsets ++ (flatten encs ++ rest))
            (write_offsets (length offsets) encs ++ (flatten encs ++ rest))
          ≡ some vs
        → read_elements
            (length vs)
            (offsets ++ (flatten encs ++ rest))
            (offsets ++ (flatten encs ++ rest))
          ≡ some vs
    heads e = rw size at e

-- The two offsets at the front of an encoded program.
drop_offsets :
    (a b n : ℕ) (body : Bytes)
    → drop (64 + n) (write_u256_word a ++ (write_u256_word b ++ body)) ≡ drop n body
drop_offsets a b n body =
    subst (λ k. drop (k + n) (write_u256_word a ++ (write_u256_word b ++ body)) ≡ drop n body) size
      (rw (← append_assoc (write_u256_word a))
        (drop-append_add (write_u256_word a ++ write_u256_word b) body n))
  where
    size : length (write_u256_word a ++ write_u256_word b) ≡ 64
    size = omega (
      arith,
      length-append (write_u256_word a) (write_u256_word b),
      length-write_u256_word a,
      length-write_u256_word b,
    )

-- An encoded program whose number of bytes fits a `usize` is read back as the tags and the data of
-- its updates, in order.
pub decode-encode_state_updates_to_abi :
    (abi : AbiSequence) (us : List StateUpdate)
    → length (encode_state_updates_to_abi abi us) < u64_mod
    → decode (encode_state_updates_to_abi abi us)
      ≡ some (map (λ u. discriminant (update_type u)) us, map (update_data abi) us)
unfolding decode encode_state_updates_to_abi
decode-encode_state_updates_to_abi abi us h =
    rw (read_word_lem 64 (write_u256_word offset_datas ++ (types ++ datas)) (omega arith)) (
      rw (drop_word 64 (write_u256_word offset_datas ++ (types ++ datas))) (
        rw (read_word_lem offset_datas (types ++ datas) (omega (arith, total)))
          (rw (at_types, at_datas) (rw (types_read, datas_read) paired))))
  where
    types : Bytes
    types = encode_types (map update_type us)

    datas : Bytes
    datas = encode_bytes_array (map (update_data abi) us)

    offset_datas : ℕ
    offset_datas = 64 + length types

    total : 64 + length types + length datas < u64_mod
    total = omega (
      arith,
      h,
      length-append (write_u256_word 64) (write_u256_word offset_datas ++ (types ++ datas)),
      length-append (write_u256_word offset_datas) (types ++ datas),
      length-append types datas,
      length-write_u256_word 64,
      length-write_u256_word offset_datas,
    )

    at_types :
        drop 64 (write_u256_word 64 ++ (write_u256_word offset_datas ++ (types ++ datas)))
        ≡ types ++ datas
    at_types = drop_offsets 64 offset_datas 0 (types ++ datas)

    at_datas :
        drop offset_datas (write_u256_word 64 ++ (write_u256_word offset_datas ++ (types ++ datas)))
        ≡ datas
    at_datas =
        drop_offsets 64 offset_datas (length types) (types ++ datas) ∙ drop-append types datas

    types_read : read_enums (types ++ datas) ≡ some (map discriminant (map update_type us))
    types_read =
        read_enums-encode_types (map update_type us) datas
          (omega (arith, total, length-encode_types (map update_type us)))

    datas_read : read_bytes_array datas ≡ some (map (update_data abi) us)
    datas_read =
        rw (append-nil datas) at
          (read_bytes_array-encode_bytes_array (map (update_data abi) us) [] (omega (arith, total)))

    paired :
        ◌≡◌ {A = Option (List ℕ × List Bytes)}
          (some (map discriminant (map update_type us), map (update_data abi) us))
          (some (map (λ u. discriminant (update_type u)) us, map (update_data abi) us))
    paired = ap (λ ts. some (ts, map (update_data abi) us)) (map-map discriminant update_type us)
