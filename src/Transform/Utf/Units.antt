-- ===== src/Transform/Utf/Units.antt =====
-- transform.c, _dispatch_transform_from_utf16: reading the units of a code point.
use mathlib.Core.List.{append_assoc}
use native.Mathlib.Decide.{ℕ_discrete as dec_eq}
use book.Base.{
  ℕ, ◌+◌, ◌-◌, ◌*◌, ◌/◌, ◌%◌, ◌<◌, ◌≤◌, ◌≡◌, refl, ap, true, false, List, ◌++◌, ◌==◌, ◌&&◌, ltb,
  leb, if◌then◌else◌, length, drop, arith,
}
use book.Data.{DispatchData}
use book.Transform.Utf.{ok, Buffer, ByteOrder, little, big}
use book.Transform.Utf.ToUtf16.{Cursor}
use book.Transform.Utf.FromUtf16.{load, next_unit, low_unit, join_units}
use book.Transform.Utf.Forms.{IsScalar, utf16, unit16, IsScalar-lt}

load-unit16 :
    (order : ByteOrder) (x : ℕ) (rest : List ℕ)
    → x < 65536
    → load order (unit16 order x ++ rest) ≡ ok x
unfolding load unit16
load-unit16 little x rest h = ap ok (omega arith)
load-unit16 big x rest h = ap ok (omega arith)

pub drop-unit16 :
    (order : ByteOrder) (x : ℕ) (rest : List ℕ) → drop 2 (unit16 order x ++ rest) ≡ rest
unfolding unit16
drop-unit16 little x rest = refl
drop-unit16 big x rest = refl

-- How many units a code point takes.
abbrev pub units : ℕ → ℕ
units c = if ltb c 0x10000 then 1 else 2

pub units-pos : (c : ℕ) → 0 < units c
units-pos c = ground arith

-- The first of them.
abbrev pub first_unit : ℕ → ℕ
first_unit c = if ltb c 0x10000 then c else 0xd800 + (c - 0x10000) / 1024

pub length-unit16 : (order : ByteOrder) (x : ℕ) → length (unit16 order x) ≡ 2
unfolding unit16
length-unit16 little x = refl
length-unit16 big x = refl

pub units-utf16 : (order : ByteOrder) (c : ℕ) → length (utf16 order c) ≡ units c * 2
unfolding utf16 unit16
units-utf16 little c = ground arith
units-utf16 big c = ground arith

module _ (order : ByteOrder) (whole : DispatchData) (b : Buffer) (i c : ℕ) (rest : List ℕ) where
  abbrev pub here : Cursor
  here = record { buffer = b; skip = 0; i = i; src = utf16 order c ++ rest }

  -- The cursor at the last unit of the code point, and the code point.
  abbrev pub at_last : Cursor
  at_last = record {
    buffer = b;
    skip = 0;
    i = i + (units c - 1);
    src = drop ((units c - 1) * 2) (utf16 order c ++ rest);
  }

  pub next_unit-first :
      (offset size max : ℕ)
      → c < 0x110000
      → max ≡ size / 2
      → next_unit order whole offset size max here
        ≡ ok (record { wch = first_unit c; behind = here })
  unfolding next_unit utf16
  next_unit-first offset size max h even =
      let whole_units : (i == max - 1 && ltb (size / 2) max) ≡ false = ground arith in
      rw whole_units (elim (dec_eq (c / 65536) 0) [
        | yes e ↦
            let one : ltb c 0x10000 ≡ true = ground arith in
            rw (one, load-unit16 order c rest (omega arith)) refl
        | no e ↦
            let two : ltb c 0x10000 ≡ false = ground arith in
            rw
              (two, append_assoc, load-unit16 order (0xd800 + (c - 0x10000) / 1024) _ (omega arith))
              refl
      ])

  pub join_units-scalar :
      (offset max : ℕ)
      → IsScalar c
      → i + units c ≤ max
      → join_units order whole offset max (record { wch = first_unit c; behind = here })
        ≡ ok (record { wch = c; behind = at_last })
  unfolding join_units low_unit utf16
  join_units-scalar offset max sc inside = elim (dec_eq (c / 65536) 0) [
    | yes e ↦
        let one : ltb c 0x10000 ≡ true = ground arith in
        let not_high : (leb 0xd800 c && leb c 0xdbff) ≡ false = ground arith in
        let not_low : (leb 0xdc00 c && leb c 0xdfff) ≡ false = ground arith in
        rw (one, not_high, not_low)
          (ap
            (λ (k : ℕ). ok (record {
              wch = c;
              behind = record { buffer = b; skip = 0; i = k; src = unit16 order c ++ rest };
            }))
            (omega arith))
    | no e ↦
        let two : ltb c 0x10000 ≡ false = ground arith in
        let hi = 0xd800 + (c - 0x10000) / 1024 in
        let lo = 0xdc00 + (c - 0x10000) % 1024 in
        let high : (leb 0xd800 hi && leb hi 0xdbff) ≡ true = ground (arith, IsScalar-lt c sc) in
        let low : (leb 0xdc00 lo && leb lo 0xdfff) ≡ true = ground arith in
        let in_region : leb max (i + 1) ≡ false = ground arith in
        let joined : (hi - 0xd800) * 1024 + lo % 1024 + 0x10000 ≡ c = omega arith in
        rw
          (
            two,
            high,
            in_region,
            append_assoc,
            drop-unit16 order hi (unit16 order lo ++ rest),
            load-unit16 order lo rest (omega arith),
            low,
            joined,
          )
          refl
  ]

  pub behind-last : drop 2 at_last.src ≡ rest
  unfolding utf16
  behind-last = elim (dec_eq (c / 65536) 0) [
    | yes e ↦ let one : ltb c 0x10000 ≡ true = ground arith in rw one (drop-unit16 order c rest)
    | no e ↦
        let two : ltb c 0x10000 ≡ false = ground arith in
        let hi = 0xd800 + (c - 0x10000) / 1024 in
        let lo = 0xdc00 + (c - 0x10000) % 1024 in
        rw (two, append_assoc, drop-unit16 order hi (unit16 order lo ++ rest))
          (drop-unit16 order lo rest)
  ]
