-- ===== src/Data/Subrange/Choice.antt =====
-- A range that begins in a given record: in it alone, to the end of the object, or in between.

use mathlib.Core.Bool.{false≢true}
use native.Mathlib.Decide.{dec_le}
use book.Base.{
  ℕ, ◌+◌, ◌-◌, ◌≤◌, ◌<◌, ◌^◌, ◌≡◌, ◌≢◌, ◌↔◌, refl, sym, ◌∙◌, ap, Bool, true, false, Option, none,
  some, List, ◌∷◌, ◌++◌, length, slice, take, drop, take-all, take-take, take-append_at,
  take-append_le, drop-append_le, drop-slice, length-append, arith, Bool-cases, inl, inr,
}
use book.Data.Defs.{
  DispatchData, composite, Records, nil, cons, Created, objects, cut_records, several, choose,
}
use book.Data.Bytes.{bytes, record_bytes, total_length, AreRanges, length-record_bytes}
use book.Data.Concat.{Gives}
use book.Data.Subrange.Search.{IsRange-later, length-range, CutAt, cut_records-CutAt}

several_cut :
    (o : DispatchData) (from l : ℕ) (p : DispatchData) (f k : ℕ) (ms : Records) (left n : ℕ)
    {cut : Records}
    → cut_records (cons p f k ms) (n - (l - left)) ≡ some cut
    → several (cons o from l (cons p f k ms)) left n false
      ≡ some (record {
        object = composite none n (cons o (from + left) (l - left) cut);
        retained = o ∷ objects cut;
      })
unfolding several
several_cut o from l p f k ms left n e = ground arith

module _ (o : DispatchData) (from l : ℕ) (more : Records) (left n : ℕ)
    (v : AreRanges (cons o from l more)) (inside : left < l) (pos : 0 < n)
    (fits : left + n ≤ l + total_length more) (small : n < 2 ^ 64) where
  rest_of_first : List ℕ
  rest_of_first = slice (from + left) (l - left) (bytes o)

  length-rest_of_first : length rest_of_first ≡ l - left
  unfolding rest_of_first
  length-rest_of_first =
      length-range o (from + left) (l - left) (IsRange-later o from l left v.0 inside)

  from_left : drop left (record_bytes (cons o from l more)) ≡ rest_of_first ++ record_bytes more
  unfolding rest_of_first bytes
  from_left =
      drop-append_le left (slice from l (bytes o)) (record_bytes more)
        (omega (arith, length-range o from l v.0))
      ∙ ap (λ t. t ++ record_bytes more) (drop-slice from l left (bytes o) (omega arith))

  -- The whole range lies in this record.
  one_record :
      left + n ≤ l
      → slice (from + left) n (bytes o) ≡ take n (drop left (record_bytes (cons o from l more)))
  unfolding rest_of_first
  one_record h = sym (
      ap (take n) from_left
      ∙ take-append_le n rest_of_first (record_bytes more) (omega (arith, length-rest_of_first))
      ∙ take-take (l - left) n (drop (from + left) (bytes o)) (omega arith))

  -- It goes on, to the end of the object.
  to_end :
      left + n ≡ l + total_length more
      → Gives
          (take n (drop left (record_bytes (cons o from l more))))
          (several (cons o from l more) left n true)
  unfolding several bytes rest_of_first
  to_end e = (
    record {
      object = composite none n (cons o (from + left) (l - left) more);
      retained = o ∷ objects more;
    },
    several_true more,
    (omega arith, omega arith, small, (IsRange-later o from l left v.0 inside, v.1), tt),
    sym (
        ap (take n) from_left
        ∙ take-all n (rest_of_first ++ record_bytes more) (
            omega (
              arith,
              length-append rest_of_first (record_bytes more),
              length-rest_of_first,
              length-record_bytes more v.1,
            ))),
  )
    where
      several_true :
          (ms : Records)
          → several (cons o from l ms) left n true
            ≡ some (record {
              object = composite none n (cons o (from + left) (l - left) ms);
              retained = o ∷ objects ms;
            })
      several_true nil = refl
      several_true (cons p f k ms) = refl

  -- It ends in a later record.
  in_middle :
      l < left + n
      → left + n < l + total_length more
      → Gives
          (take n (drop left (record_bytes (cons o from l more))))
          (several (cons o from l more) left n false)
  unfolding bytes rest_of_first
  in_middle past before = (
    record {
      object = composite none n (cons o (from + left) (l - left) c.cut);
      retained = o ∷ objects c.cut;
    },
    several_false more (omega arith) c.result,
    (
      omega (arith, c.sum),
      omega arith,
      small,
      (IsRange-later o from l left v.0 inside, c.ranges),
      tt,
    ),
    ap (◌++◌ rest_of_first) c.prefix
        ∙ sym (
            ap (take n) from_left
            ∙ take-append_at n (l - left) rest_of_first (record_bytes more) length-rest_of_first
                (omega arith)),
  )
    where
      c : CutAt more (n - (l - left)) (cut_records more (n - (l - left)))
      c = cut_records-CutAt more (n - (l - left)) v.1 (omega arith) (omega arith)

      several_false :
          (ms : Records)
          → 0 < total_length ms
          → {cut : Records} → cut_records ms (n - (l - left)) ≡ some cut
          → several (cons o from l ms) left n false
            ≡ some (record {
              object = composite none n (cons o (from + left) (l - left) cut);
              retained = o ∷ objects cut;
            })
      several_false nil h e = absurd (omega arith)
      several_false (cons p f k ms) h e = several_cut o from l p f k ms left n e

  choose_inner :
      (b : Bool) (inner : Option Created)
      → left + n ≤ l
      → choose (cons o from l more) left n b inner ≡ inner
  unfolding choose
  choose_inner b inner h = ground arith

  choose-several :
      (b : Bool) (inner : Option Created)
      → l < left + n
      → choose (cons o from l more) left n b inner ≡ several (cons o from l more) left n b
  unfolding choose
  choose-several b inner h = ground arith

  -- Whichever it is; `b` says whether the range goes to the end.
  pub choose-Gives :
      (b : Bool) (inner : Option Created)
      → ((b ≡ true) ↔ (left + n ≡ l + total_length more))
      → Gives (slice (from + left) n (bytes o)) inner
      → Gives
          (take n (drop left (record_bytes (cons o from l more))))
          (choose (cons o from l more) left n b inner)
  choose-Gives b inner e g = elim (dec_le (left + n) l) [
    | yes h ↦ (g.0, choose_inner b inner h ∙ g.1, g.2, g.3 ∙ one_record h)
    | no h ↦ elim (Bool-cases b) [
      | inl t ↦
          let r = to_end (e.0 t) in (r.0, choose-several b inner (omega arith) ∙ rw t r.1, r.2, r.3)
      | inr f ↦
          let less : left + n ≢ l + total_length more = λ q. false≢true (sym f ∙ e.1 q) in
          let r = in_middle (omega arith) (omega arith) in
          (r.0, choose-several b inner (omega arith) ∙ rw f r.1, r.2, r.3)
    ]
  ]
