-- ===== src/Data/Subrange/Search.antt =====
-- Records cut at a length, and the record that contains an offset.

use mathlib.Core.List.{append-nil}
use native.Mathlib.Decide.{dec_le}
use book.Base.{
  ℕ, ◌+◌, ◌-◌, ◌≤◌, ◌<◌, ◌≡◌, refl, sym, ◌∙◌, ap, Option, some, ◌++◌, length, slice, take, drop,
  take-take, take-append_at, drop-append_at, take-append_le, length-slice, arith,
}
use book.Data.Defs.{
  DispatchData, leaf, composite, Records, nil, cons, seek, cut_records, create_subrange,
  subrange_within,
}
use book.Data.Bytes.{bytes, record_bytes, total_length, IsRange, AreRanges}

pub IsRange-shorter :
    (o : DispatchData) (from len n : ℕ) → IsRange o from len → 0 < n → n ≤ len → IsRange o from n
IsRange-shorter (leaf buf) from len n v pos h = (pos, omega arith, v.2)
IsRange-shorter (composite f s rs) from len n v pos h = absurd v

pub IsRange-later :
    (o : DispatchData) (from len k : ℕ)
    → IsRange o from len
    → k < len
    → IsRange o (from + k) (len - k)
IsRange-later (leaf buf) from len k v h = (omega arith, omega arith, v.2)
IsRange-later (composite f s rs) from len k v h = absurd v

pub length-range :
    (o : DispatchData) (from len : ℕ) → IsRange o from len → length (slice from len (bytes o)) ≡ len
unfolding bytes
length-range (leaf buf) from len v = omega (arith, length-slice from len buf)
length-range (composite f s rs) from len v = absurd v

-- Cutting a list of records at a length that is inside it.
pub record CutAt (rs : Records) (last : ℕ) (r : Option Records) : Type 0 where
  pub cut : Records
  pub result : r ≡ some cut
  pub ranges : AreRanges cut
  pub sum : total_length cut ≡ last
  pub prefix : record_bytes cut ≡ take last (record_bytes rs)

pub cut_records-CutAt :
    (rs : Records) (last : ℕ)
    → AreRanges rs
    → 0 < last
    → last ≤ total_length rs
    → CutAt rs last (cut_records rs last)
unfolding cut_records bytes
cut_records-CutAt nil last v pos h = absurd (omega arith)
cut_records-CutAt (cons o from len rest) last v pos h = elim (dec_le last len) [
  | yes ends ↦ record {
    cut = cons o from last nil;
    result = ground arith;
    ranges = (IsRange-shorter o from len last v.0 pos ends, tt);
    sum = omega arith;
    prefix =
        append-nil (slice from last (bytes o))
        ∙ sym (
            take-append_le last (slice from len (bytes o)) (record_bytes rest)
              (omega (arith, length-range o from len v.0))
            ∙ take-take len last (drop from (bytes o)) ends);
  }
  | no goes ↦
      let more = cut_records-CutAt rest (last - len) v.1 (omega arith) (omega arith) in
      record {
        cut = cons o from len more.cut;
        result = ground (arith, more.result);
        ranges = (v.0, more.ranges);
        sum = omega (arith, more.sum);
        prefix =
            ap (◌++◌ (slice from len (bytes o))) more.prefix
            ∙ sym (
                take-append_at last len (slice from len (bytes o)) (record_bytes rest)
                  (length-range o from len v.0) (omega arith));
      }
]

-- The record found, and the bytes from the offset on.
pub record Found (rs : Records) (offset n : ℕ) : Type 0 where
  pub o : DispatchData
  pub from : ℕ
  pub len : ℕ
  pub more : Records
  pub left : ℕ
  pub result : seek rs offset ≡ (cons o from len more, left)
  pub inside : left < len
  pub ranges : AreRanges (cons o from len more)
  pub suffix : drop offset (record_bytes rs) ≡ drop left (record_bytes (cons o from len more))
  pub remains : total_length (cons o from len more) + offset ≡ total_length rs + left
  pub within : subrange_within rs offset n ≡ create_subrange o (from + left) n

pub seek-Found :
    (rs : Records) (offset n : ℕ) → AreRanges rs → offset < total_length rs → Found rs offset n
unfolding seek bytes create_subrange
seek-Found nil offset n v h = absurd (omega arith)
seek-Found (cons o from len rest) offset n v h = elim (dec_le len offset) [
  | yes past ↦
      let r = seek-Found rest (offset - len) n v.1 (omega arith) in
      record {
        o = r.o;
        from = r.from;
        len = r.len;
        more = r.more;
        left = r.left;
        result = ground (arith, r.result);
        inside = r.inside;
        ranges = r.ranges;
        suffix =
            drop-append_at offset len (slice from len (bytes o)) (record_bytes rest)
              (length-range o from len v.0) past
            ∙ r.suffix;
        remains = omega (arith, r.remains);
        within = ground (arith, r.within);
      }
  | no here ↦ record {
    o = o;
    from = from;
    len = len;
    more = rest;
    left = offset;
    result = ground arith;
    inside = omega arith;
    ranges = v;
    suffix = refl;
    remains = omega arith;
    within = ground arith;
  }
]
