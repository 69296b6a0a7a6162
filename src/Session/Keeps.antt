-- ===== src/Session/Keeps.antt =====
-- Actions that answer from every state of an invariant and keep it, and Transact as one of them.
use qnx_unit_tests.Base.{
  ℕ, zero, suc, ◌^◌, ◌≤◌, ◌<◌, List, Option, none, some, Bool, true, false, ◌≡◌, refl, sym, ap, ◌∙◌,
  arith, length, Result, ok, fault, stuck, ◌!=◌, if◌then◌else◌, Bool-cases, inl, inr,
}
use qnx_unit_tests.Types.{max_message_size}
use qnx_unit_tests.Message.{Message, from_bytes, get_type}
use qnx_unit_tests.Message.Parse.{is_rlerror}
use qnx_unit_tests.Message.Refines.{IsSafe, view, get_u32-Refines}
use qnx_unit_tests.Message.Expect.{answer, header_within, ne→eq}
use qnx_unit_tests.Message.Take.{take_u32}
use qnx_unit_tests.Transport.{Transport, Errno}
use qnx_unit_tests.Session.{Session, Act, pure, ◌>>=◌, continue, parsed, code_of, attempts}

-- From every state in `P` the action answers with a value in `V` and a state in `Q`.
pub record Keeps {S A : Type 0} (P : Session S → Type 0) (V : A → Type 0) (Q : Session S → Type 0)
    (m : Act S A) : Type 0 where
  pub run : (s : Session S) → P s → (a : A) × (s' : Session S) × (m s ≡ ok (a, s')) × V a × Q s'

abbrev pub Any : {A : Type 0} → A → Type 0
Any a = Unit {0}

pub pure-Keeps :
    {S A : Type 0} {P : Session S → Type 0} {V : A → Type 0} (a : A) → V a → Keeps P V P (pure a)
pure-Keeps a v = record { run = λ s p. (a, s, refl, v, p) }

pub bind-Keeps :
    {S A B : Type 0} {P Q R : Session S → Type 0} {V : A → Type 0} {W : B → Type 0} {m : Act S A}
    {f : A → Act S B}
    → Keeps P V Q m
    → ((a : A) → V a → Keeps Q W R (f a))
    → Keeps P W R (m >>= f)
bind-Keeps {f = f} k l = record {
  run = λ s p.
      let (a, s', e, v, q) = k.run s p in
      let (b, s'', e', w, r) = (l a v).run s' q in (b, s'', ap (λ x. continue x f) e ∙ e', w, r);
}

pub if-Keeps :
    {S A : Type 0} {P Q : Session S → Type 0} {V : A → Type 0} {m n : Act S A} (b : Bool)
    → Keeps P V Q m
    → Keeps P V Q n
    → Keeps P V Q (if b then m else n)
if-Keeps true k l = k
if-Keeps false k l = l

pub option-Keeps :
    {S A B : Type 0} {P Q : Session S → Type 0} {V : B → Type 0} {m : Act S B} {f : A → Act S B}
    (o : Option A)
    → Keeps P V Q m
    → ((a : A) → Keeps P V Q (f a))
    → Keeps P V Q (elim o [ none ↦ m | some a ↦ f a ])
option-Keeps none k l = k
option-Keeps (some a) k l = l a

pub parsed-answer :
    {S A : Type 0} (r : Result (A × Message)) (s : Session S) (o : A)
    → answer r ≡ ok o
    → parsed r s ≡ ok (o, s)
parsed-answer (ok (a, m)) s o e = ground arith
parsed-answer fault s o e = cc
parsed-answer stuck s o e = cc

pub parsed-Keeps :
    {S A : Type 0} {P : Session S → Type 0} (r : Result (A × Message)) (o : A)
    → answer r ≡ ok o
    → Keeps P Any P (parsed r)
parsed-Keeps r o e = record { run = λ s p. (o, s, parsed-answer r s o e, tt, p) }

-- The invariant of a session, where `b` says whether it is being re-initialized.
pub record IsValid {S : Type 0} (b : Bool) (s : Session S) : Type 0 where
  pub flag : s.reinitializing ≡ b
  pub size : s.message_size ≤ max_message_size
  pub tag : s.next_tag < 2 ^ 16
  pub fid : s.fid_pool.next_fid < 2 ^ 32

-- A transport whose responses fit 2 GiB (the buffer of a device has 128 KiB).
pub record IsBounded {S : Type 0} (t : Transport S) : Type 0 where
  pub small : (bs : List ℕ) (device : S) → length (t.exchange bs device).1 ≤ 2 ^ 31

abbrev pub Small : ℕ × Message → Type 0
Small p = length p.1.bytes ≤ 2 ^ 31

is_rlerror-total :
    (bs : List ℕ) → length bs ≤ 2 ^ 31 → (o : Option ℕ) × (is_rlerror (from_bytes bs) ≡ ok o)
unfolding is_rlerror
is_rlerror-total bs h = elim (Bool-cases (get_type (from_bytes bs) != 7)) [
  | inl other ↦ (none, rw other)
  | inr same ↦
      let e = ne→eq (get_type (from_bytes bs)) 7 same in
      let safe : IsSafe (from_bytes bs) = record {
        within = header_within (from_bytes bs) (omega arith);
        small = h;
      } in
      let (r, run, _, _, _) = get_u32-Refines.run (from_bytes bs) safe in
      let code : ℕ = (take_u32 (view (from_bytes bs))).0 in (some code, rw (same, run))
]

code_of-total :
    {S : Type 0} (response : Message) (o : Option ℕ) (s : Session S)
    → (rc : ℕ) × (code_of response (ok o) s ≡ ok ((rc, response), s))
code_of-total response none s = (0, refl)
code_of-total response (some code) s = (_, refl)

module _ {S : Type 0} (t : Transport S) (e : Errno) (bound : IsBounded t) where
  respond-Keeps :
      (b : Bool) (bs : List ℕ)
      → length bs ≤ 2 ^ 31
      → Keeps
          (IsValid b)
          Small
          (IsValid b)
          (code_of {S = S} (from_bytes bs) (is_rlerror (from_bytes bs)))
  respond-Keeps b bs h = record {
    run = λ s p.
        let (o, total) = is_rlerror-total bs h in
        let (rc, done) = code_of-total (from_bytes bs) o s in
        ((rc, from_bytes bs), s, rw total done, h, p);
  }

  -- The state after an exchange.
  abbrev exchanged : Message → Session S → Session S
  exchanged request s = record s { device = (t.exchange request.bytes s.device).2 }

  exchanged-IsValid :
      (b : Bool) (request : Message) (s : Session S) → IsValid b s → IsValid b (exchanged request s)
  exchanged-IsValid b request s p = record {
    flag = p.flag;
    size = p.size;
    tag = p.tag;
    fid = p.fid;
  }

  -- One attempt, where `recover` is what follows a failed exchange of a session that is not being
  -- re-initialized.
  abbrev attempt : (ℕ → Act S (ℕ × Message)) → Message → Message → Act S (ℕ × Message)
  attempt recover request response s =
      let (rc, bs, device) = t.exchange request.bytes s.device in
      if rc != 0
      then (if s.reinitializing
          then ok ((rc, response), exchanged request s)
          else recover rc (exchanged request s))
      else code_of (from_bytes bs) (is_rlerror (from_bytes bs)) (exchanged request s)

  attempt-Keeps :
      (b : Bool) (recover : ℕ → Act S (ℕ × Message)) (request response : Message)
      → length response.bytes ≤ 2 ^ 31
      → (b ≡ false → (rc : ℕ) → Keeps (IsValid b) Small (IsValid b) (recover rc))
      → Keeps (IsValid b) Small (IsValid b) (attempt recover request response)
  attempt-Keeps b recover request response h k = record {
    run = λ s p.
        let rc : ℕ = (t.exchange request.bytes s.device).0 in
        let p' = exchanged-IsValid b request s p in
        elim (Bool-cases (rc != 0)) [
          | inr fine ↦
              let bs = (t.exchange request.bytes s.device).1 in
              let (a, s', done, v, q) =
                (respond-Keeps b bs (bound.small request.bytes s.device)).run (exchanged request s)
                  p' in
              (a, s', rw fine done, v, q)
          | inl failed ↦
              let stop : Result ((ℕ × Message) × Session S) =
                ok ((rc, response), exchanged request s) in
              elim (Bool-cases s.reinitializing) [
                | inl inner ↦ (
                  (rc, response),
                  exchanged request s,
                  rw failed (ap (λ c. if c then stop else recover rc (exchanged request s)) inner),
                  h,
                  p',
                )
                | inr outer ↦
                    let (a, s', done, v, q) =
                      (k (sym p.flag ∙ outer) rc).run (exchanged request s) p' in
                    (
                      a,
                      s',
                      rw failed (
                          ap (λ c. if c then stop else recover rc (exchanged request s)) outer
                          ∙ done),
                      v,
                      q,
                    )
              ]
        ];
  }

  pub attempts-Keeps :
      (b : Bool) (reinit : Act S ℕ) (n : ℕ) (request response : Message)
      → length response.bytes ≤ 2 ^ 31
      → (b ≡ false → Keeps (IsValid b) Any (IsValid b) reinit)
      → Keeps (IsValid b) Small (IsValid b) (attempts t e reinit n request response)
  unfolding attempts
  attempts-Keeps b reinit zero request response h k = pure-Keeps _ h
  attempts-Keeps b reinit (suc n) request response h k =
      let again = attempts-Keeps b reinit n request response h k in
      attempt-Keeps b
        (λ rc. reinit >>= λ reinit_rc.
          if reinit_rc != 0 then pure (rc, response) else attempts t e reinit n request response)
        request response h
        (λ outer rc.
          bind-Keeps (k outer) (λ reinit_rc u. if-Keeps (reinit_rc != 0) (pure-Keeps _ h) again))
