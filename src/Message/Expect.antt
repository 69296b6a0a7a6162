-- ===== src/Message/Expect.antt =====
-- A parser is a test of the type, a reset of the offset and a reader: what that does on a framed
-- message and on any message, for every reader that refines one of Message/Take.antt.
use qnx_unit_tests.Base.{
  ℕ, suc, ◌^◌, ◌≤◌, List, [], ◌∷◌, ◌++◌, Option, none, true, false, ◌≡◌, ◌≢◌, ◌∙◌, arith, length,
  Result, ok, fault, stuck, le→ltb, ◌==◌, ◌!=◌, sym, zero, drop, if◌then◌else◌, Bool-cases, inl,
  inr,
}
use qnx_unit_tests.Types.{Qid, header_size}
use qnx_unit_tests.Message.{Message, Get, from_bytes, get_type, ◌>>◌, reset_read_offset}
use qnx_unit_tests.Message.Take
use qnx_unit_tests.Message.Take.{Take, take_qid, done}
use qnx_unit_tests.Message.Parse.{expect, get_qids}
use qnx_unit_tests.Message.Frame.{frame}
use qnx_unit_tests.Message.Refines.{IsSafe, Refines, bind-Refines, get_qid-Refines, done-Refines}

-- The value that a parser answers.
abbrev pub answer : {A : Type 0} → Result (A × Message) → Result A
answer (ok (a, m)) = ok a
answer fault = fault
answer stuck = stuck

pub get_type-frame : (type tag : ℕ) (p : List ℕ) → get_type (from_bytes (frame type tag p)) ≡ type
unfolding get_type
get_type-frame type tag p = rw (le→ltb (length (frame type tag p)) header_size (omega arith))

ne_self : (t : ℕ) → (t != t) ≡ false
ne_self t = ground arith

eq_self : (t : ℕ) → (t == t) ≡ true
eq_self t = ground arith

pub frame-IsSafe :
    (type tag : ℕ) (p : List ℕ)
    → length (frame type tag p) ≤ 2 ^ 31
    → IsSafe (from_bytes (frame type tag p))
frame-IsSafe type tag p h = record { within = omega arith; small = h }

-- On a message of its type a parser answers what its reader takes from the payload.
pub expect-frame :
    {A : Type 0} {g : Get (Option A)} {s : Take (Option A)} (type tag : ℕ) (p : List ℕ)
    → Refines g s
    → length (frame type tag p) ≤ 2 ^ 31
    → answer (expect type (reset_read_offset >> g) (from_bytes (frame type tag p))) ≡ ok (s p).0
unfolding reset_read_offset
expect-frame type tag p q h =
    let (r, e, _, _, _) = q.run (from_bytes (frame type tag p)) (frame-IsSafe type tag p h) in
    rw (get_type-frame type tag p, ne_self type, e)

pub header_within : (m : Message) → get_type m ≢ 6 → header_size ≤ length m.bytes
unfolding get_type
header_within m h = ground arith

pub ne→eq : (a b : ℕ) → (a != b) ≡ false → a ≡ b
ne→eq a b h = ground arith

ne→==_false : (a b : ℕ) → (a != b) ≡ true → (a == b) ≡ false
ne→==_false a b h = ground arith

-- On any message up to 2 GiB a parser answers what its reader takes behind the header, and `none`
-- where the type is another.
pub expect-take :
    {A : Type 0} {g : Get (Option A)} {s : Take (Option A)} (type : ℕ) (m : Message)
    → type ≢ 6
    → Refines g s
    → length m.bytes ≤ 2 ^ 31
    → answer (expect type (reset_read_offset >> g) m)
      ≡ ok (if get_type m == type then (s (drop header_size m.bytes)).0 else none)
unfolding reset_read_offset
expect-take {s = s} type m ht q h = elim (Bool-cases (get_type m != type)) [
  | inl other ↦ rw (other, ne→==_false (get_type m) type other)
  | inr same ↦
      let e = ne→eq (get_type m) type same in
      let safe : IsSafe (record m { read_offset = header_size }) = record {
        within = header_within m (λ six. ht (sym e ∙ six));
        small = h;
      } in
      let (r, run, _, _, _) = q.run (record m { read_offset = header_size }) safe in
      rw (same, run, e, eq_self type)
]

unfoldable pub take_qids : ℕ → List Qid → Take (List Qid)
take_qids zero qids = done qids
take_qids (suc n) qids = Take.◌>>=◌ take_qid (λ qid. take_qids n (qids ++ qid ∷ []))

pub get_qids-Refines : (n : ℕ) (qids : List Qid) → Refines (get_qids n qids) (take_qids n qids)
unfolding get_qids take_qids
get_qids-Refines zero qids = done-Refines qids
get_qids-Refines (suc n) qids =
    bind-Refines get_qid-Refines (λ qid. get_qids-Refines n (qids ++ qid ∷ []))
