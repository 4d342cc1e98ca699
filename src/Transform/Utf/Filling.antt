-- ===== src/Transform/Utf/Filling.antt =====
-- transform.c, _dispatch_transform_buffer_new: flushing and replacing the output buffer loses nothing
-- of what was written.
use mathlib.Core.List.{append-nil, append_assoc}
use book.Base.{
  ℕ, ◌+◌, ◌-◌, ◌^◌, ◌<◌, ◌≤◌, ◌≡◌, refl, sym, ap, ◌∙◌, inl, inr, true, false, some, List, [], ◌∷◌,
  ◌++◌, ◌==◌, ◌||◌, ltb, leb, length, length-append, add64, arith, Bool-cases,
}
use book.Data.{DispatchData, leaf, get_size, bytes, IsValid, length-bytes}
use book.Data.Concat.{create_concat-bytes}
use book.Transform.Utf.{ok, Buffer, flushed, buffer_new, put, buffer_malloc_max}

-- The output so far, in the object and in the buffer.
pub record Holds (b : Buffer) (w : List ℕ) : Type 0 where
  pub valid : IsValid b.data_object
  pub all : bytes b.data_object ++ b.written ≡ w
  pub within : length b.written ≤ b.size

-- The object once what is written is appended.
record Flushed (b : Buffer) (w : List ℕ) : Type 0 where
  object : DispatchData
  result : flushed b ≡ some object
  valid : IsValid object
  all : bytes object ≡ w

append_written :
    (d : DispatchData) (xs : List ℕ) (size : ℕ) (w : List ℕ)
    → Holds (record { data_object = d; written = xs; size = size }) w
    → length w < 2 ^ 63
    → Flushed (record { data_object = d; written = xs; size = size }) w
unfolding flushed bytes
append_written d [] size w h small = record {
  object = d;
  result = refl;
  valid = h.valid;
  all = sym (append-nil (bytes d)) ∙ h.all;
}
append_written d (x ∷ xs) size w h small =
    let total : get_size d + length (x ∷ xs) ≡ length w =
      omega (arith, length-bytes d h.valid, length-append (bytes d) (x ∷ xs), ap length h.all) in
    let (c, e, v, same) =
      create_concat-bytes d (leaf (x ∷ xs)) h.valid (omega arith) (omega arith) in
    record { object = c.object; result = rw (flushed, e) refl; valid = v; all = same ∙ h.all }

-- What buffer_new gives: the same output, and room for what was required.
pub record Opened (b : Buffer) (w : List ℕ) (required size : ℕ) : Type 0 where
  pub buffer : Buffer
  pub result : buffer_new b required size ≡ ok buffer
  pub holds : Holds buffer w
  pub room : length buffer.written + required ≤ buffer.size
  pub flush : required ≡ 0 → bytes buffer.data_object ≡ w

pub buffer_new-Opened :
    (b : Buffer) (w : List ℕ) (required size : ℕ)
    → Holds b w
    → length w < 2 ^ 63
    → required + size ≤ buffer_malloc_max
    → Opened b w required size
unfolding buffer_new
buffer_new-Opened b w required size h small fits =
    let asked = required == 0 || ltb (b.size - length b.written) required in
    elim (Bool-cases asked) [
      | inl e ↦
          let f = append_written b.data_object b.written b.size w h small in
          let same : add64 required size ≡ required + size = omega arith in
          let max : ltb buffer_malloc_max (required + size) ≡ false = ground arith in
          record {
            buffer = record { data_object = f.object; written = []; size = required + size };
            result = rw (e, f.result, same, max) refl;
            holds = record {
              valid = f.valid;
              all = append-nil (bytes f.object) ∙ f.all;
              within = omega arith;
            };
            room = omega arith;
            flush = λ z. f.all;
          }
      | inr e ↦ record {
        buffer = b;
        result = rw e refl;
        holds = h;
        room = ground (arith, h.within);
        flush = λ z. absurd (ground arith);
      }
    ]

-- A write in the buffer's room adds to the output.
pub put-Holds :
    (b : Buffer) (w bs : List ℕ)
    → Holds b w
    → length b.written + length bs ≤ b.size
    → (put b bs ≡ ok (record b { written = b.written ++ bs }))
      × Holds (record b { written = b.written ++ bs }) (w ++ bs)
unfolding put
put-Holds b w bs h room =
    let l : leb (length b.written + length bs) b.size ≡ true = ground arith in
    (
      rw l refl,
      record {
        valid = h.valid;
        all =
            sym (append_assoc (bytes b.data_object) b.written bs)
            ∙ ap (λ (t : List ℕ). t ++ bs) h.all;
        within = omega (arith, length-append b.written bs);
      },
    )
