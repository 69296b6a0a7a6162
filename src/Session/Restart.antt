-- ===== src/Session/Restart.antt =====
-- Reinitialize forgets every fid: what that does to a request that is sent again.
use qnx_unit_tests.Base.{
  ℕ, suc, ◌+◌, ◌%◌, ◌^◌, ◌<◌, List, [], ◌∷◌, Option, none, some, Bool, true, false, ◌≡◌, ◌≢◌, refl,
  sym, ap, ◌∙◌, arith, Result, ok, fault, stuck, subst, not, ◌!=◌, if◌then◌else◌, Bool-cases, inl,
  inr,
}
use qnx_unit_tests.FidPool.{FidPool, allocate, release, empty_pool, reset}
use qnx_unit_tests.Types.{max_message_size, protocol_version, no_fid}
use qnx_unit_tests.Message.{Message, new, from_bytes}
use qnx_unit_tests.Message.Parse.{is_rlerror, parse_rattach, parse_rversion}
use qnx_unit_tests.Message.Build.{build_tattach, build_tversion}
use qnx_unit_tests.Transport.{Transport, Errno, IsErrno, neg32}
use qnx_unit_tests.Session.Path.{bytes_eq}
use qnx_unit_tests.Session.{
  Session, Act, pure, ◌>>=◌, ◌>>◌, continue, parsed, release_root, set_aname, set_reinitializing,
  restart, after_attach, attach, after_version, initialize_with, reinitialize_with, transact_within,
  reinitialize, attempts, code_of,
}

-- Wherever the action answers from a state in `P`, the value and the state are in `Q`.
record Leaves {S A : Type 0} (P : Session S → Type 0) (Q : A → Session S → Type 0) (m : Act S A)
    : Type 0 where
  run : (s s' : Session S) (a : A) → P s → m s ≡ ok (a, s') → Q a s'

inverted :
    {S A B : Type 0} (r : Result (A × Session S)) (f : A → Act S B) (b : B) (s' : Session S)
    → continue r f ≡ ok (b, s')
    → (a : A) × (s : Session S) × (r ≡ ok (a, s)) × (f a s ≡ ok (b, s'))
inverted (ok (a, s)) f b s' h = (a, s, refl, h)
inverted fault f b s' h = cc
inverted stuck f b s' h = cc

ok-injective : {X : Type 0} (x y : X) → ok x ≡ ok y → x ≡ y
ok-injective x y h = cc

pure-Leaves :
    {S A : Type 0} {P : Session S → Type 0} {Q : A → Session S → Type 0} (a : A)
    → ((s : Session S) → P s → Q a s)
    → Leaves P Q (pure a)
pure-Leaves {S = S} {A = A} {Q = Q} a h = record {
  run = λ s s' b p e.
      subst (λ (x : A × Session S). Q x.0 x.1) (ok-injective (a, s) (b, s') e) (h s p);
}

bind-Leaves :
    {S A B : Type 0} {P : Session S → Type 0} {Q : A → Session S → Type 0}
    {R : B → Session S → Type 0} {m : Act S A} {f : A → Act S B}
    → Leaves P Q m
    → ((a : A) → Leaves (Q a) R (f a))
    → Leaves P R (m >>= f)
bind-Leaves {m = m} {f} k l = record {
  run = λ s s'' b p e.
      let (a, s', e1, e2) = inverted (m s) f b s'' e in (l a).run s' s'' b (k.run s s' a p e1) e2;
}

-- A step that always answers.
step-Leaves :
    {S A : Type 0} {P : Session S → Type 0} {Q : A → Session S → Type 0} {m : Act S A}
    (value : Session S → A) (next : Session S → Session S)
    → ((s : Session S) → m s ≡ ok (value s, next s))
    → ((s : Session S) → P s → Q (value s) (next s))
    → Leaves P Q m
step-Leaves {S = S} {A = A} {Q = Q} value next e h = record {
  run = λ s s' a p r.
      subst (λ (x : A × Session S). Q x.0 x.1)
        (ok-injective (value s, next s) (a, s') (sym (e s) ∙ r)) (h s p);
}

if-Leaves :
    {S A : Type 0} {P : Session S → Type 0} {Q : A → Session S → Type 0} {m n : Act S A} (b : Bool)
    → (b ≡ true → Leaves P Q m)
    → (b ≡ false → Leaves P Q n)
    → Leaves P Q (if b then m else n)
if-Leaves true k l = k refl
if-Leaves false k l = l refl

option-Leaves :
    {S A B : Type 0} {P : Session S → Type 0} {Q : B → Session S → Type 0} {m : Act S B}
    {f : A → Act S B} (o : Option A)
    → Leaves P Q m
    → ((a : A) → Leaves P Q (f a))
    → Leaves P Q (elim o [ none ↦ m | some a ↦ f a ])
option-Leaves none k l = k
option-Leaves (some a) k l = l a

chosen : {X : Type 0} (b : Bool) (x y z : X) → b ≡ true → (if b then x else y) ≡ z → x ≡ z
chosen true x y z h r = r
chosen false x y z h r = cc

refused : {X : Type 0} (b : Bool) (x y z : X) → b ≡ false → (if b then x else y) ≡ z → y ≡ z
refused true x y z h r = cc
refused false x y z h r = r

parsed-Leaves :
    {S A : Type 0} {P : Session S → Type 0} (r : Result (A × Message))
    → Leaves {S = S} {A = A} P (λ a. P) (parsed r)
parsed-Leaves (ok (a, m)) = pure-Leaves a (λ s p. p)
parsed-Leaves fault = record { run = λ s s' a f r. cc }
parsed-Leaves stuck = record { run = λ s s' a f r. cc }

-- A session that is being re-initialized, with the given pool.
record Flagged {S : Type 0} (p : FidPool) (s : Session S) : Type 0 where
  flag : s.reinitializing ≡ true
  pool : s.fid_pool ≡ p

-- The pool holds the root fid alone.
abbrev pub root_pool : FidPool
root_pool = record { allocated = 0 ∷ []; next_fid = 1 }

-- Where the code is 0, the pool holds the root fid alone.
abbrev Attached : {S : Type 0} → ℕ → Session S → Type 0
Attached rc s = rc ≡ 0 → s.fid_pool ≡ root_pool

failed-Leaves :
    {S : Type 0} {P : Session S → Type 0} (rc : ℕ) → rc ≢ 0 → Leaves {S = S} P Attached (pure rc)
failed-Leaves rc h = pure-Leaves rc (λ s p z. absurd (h z))

module _ {S : Type 0} (t : Transport S) (e : Errno) (known : IsErrno e) where
  respond-Leaves :
      (p : FidPool) (response : Message) (o : Result (Option ℕ))
      → Leaves {S = S} (Flagged p) (λ a. Flagged p) (code_of response o)
  respond-Leaves p response (ok none) = pure-Leaves (0, response) (λ s f. f)
  respond-Leaves p response (ok (some code)) = pure-Leaves (neg32 code, response) (λ s f. f)
  respond-Leaves p response fault = record { run = λ s s' a f r. cc }
  respond-Leaves p response stuck = record { run = λ s s' a f r. cc }

  -- A nested Transact sends one request and touches no fid.
  inner-Leaves :
      (p : FidPool) (nesting : ℕ) (request response : Message)
      → Leaves {S = S}
          (Flagged p)
          (λ a. Flagged p)
          (transact_within t e (suc nesting) request response)
  unfolding transact_within attempts
  inner-Leaves p nesting request response = record {
    run = λ s s' a f r.
        let x = t.exchange request.bytes s.device in
        let s1 : Session S = record s { device = x.2 } in
        let f1 : Flagged p s1 = record { flag = f.flag; pool = f.pool } in
        elim (Bool-cases (x.0 != 0)) [
          | inl failed ↦
              subst (λ (y : (ℕ × Message) × Session S). Flagged p y.1)
                (ok-injective ((x.0, response), s1) (a, s')
                  (chosen s.reinitializing _ _ _ f.flag (chosen (x.0 != 0) _ _ _ failed r)))
                f1
          | inr fine ↦
              (respond-Leaves p (from_bytes x.1) (is_rlerror (from_bytes x.1))).run s1 s' a f1
                (refused (x.0 != 0) _ _ _ fine r)
        ];
  }

  neg32-ne-zero : (code : ℕ) → 0 < code → code < 2 ^ 31 → neg32 code ≢ 0
  neg32-ne-zero code h b = omega arith

  release-Leaves :
      (rc : ℕ) → rc ≢ 0 → Leaves {S = S} (Flagged root_pool) Attached (release_root t e >> pure rc)
  unfolding release_root
  release-Leaves rc h =
      step-Leaves (λ s. rc) (λ s. record s { fid_pool = release s.root_fid s.fid_pool })
        (λ s. unfold release in refl) (λ s f z. absurd (h z))

  after_attach-Leaves :
      (reply : ℕ × Message) → Leaves {S = S} (Flagged root_pool) Attached (after_attach t e reply)
  unfolding after_attach
  after_attach-Leaves (rc, m) =
      if-Leaves (rc != 0) (λ h. release-Leaves rc (ground arith))
        λ h. bind-Leaves (parsed-Leaves (parse_rattach m)) λ o.
          option-Leaves o
            (release-Leaves (neg32 e.eio) (neg32-ne-zero e.eio known.eio_range.0 known.eio_range.1))
            (λ qid. pure-Leaves 0 (λ s f z. f.pool))

  attach-Leaves :
      (aname : List ℕ) (n : ℕ)
      → Leaves {S = S} (Flagged empty_pool) Attached (attach t e (transact_within t e 1) aname n)
  unfolding attach
  attach-Leaves aname n =
      bind-Leaves {Q = λ u. Flagged empty_pool}
        (step-Leaves (λ s. tt) (λ s. record s { message_size = _ }) (λ s. refl)
          (λ s f. record { flag = f.flag; pool = f.pool }))
        λ u.
          bind-Leaves {Q = λ u. Flagged root_pool}
            (step-Leaves (λ s. (allocate s.fid_pool).0)
              (λ s. record s {
                fid_pool = (allocate s.fid_pool).1;
                root_fid = (allocate s.fid_pool).0;
              })
              (λ s. refl)
              (λ s f. record {
                flag = f.flag;
                pool = ap (λ q. (allocate q).1) f.pool ∙ unfold allocate in refl;
              }))
            λ fid.
              bind-Leaves {Q = λ u. Flagged root_pool}
                (step-Leaves (λ s. s.next_tag)
                  (λ s. record s { next_tag = (s.next_tag + 1) % 2 ^ 16 }) (λ s. refl)
                  (λ s f. record { flag = f.flag; pool = f.pool }))
                λ tag.
                  bind-Leaves
                    (inner-Leaves root_pool 0 (build_tattach tag fid no_fid [] aname 0) new)
                    λ reply. after_attach-Leaves reply

  after_version-Leaves :
      (aname : List ℕ) (reply : ℕ × Message)
      → Leaves {S = S}
          (Flagged empty_pool)
          Attached
          (after_version t e (transact_within t e 1) aname reply)
  unfolding after_version
  after_version-Leaves aname (rc, m) =
      if-Leaves (rc != 0) (λ h. failed-Leaves rc (ground arith))
        λ h. bind-Leaves (parsed-Leaves (parse_rversion m)) λ o.
          option-Leaves o
            (failed-Leaves (neg32 e.eio) (neg32-ne-zero e.eio known.eio_range.0 known.eio_range.1))
            λ (size, version).
              if-Leaves (not (bytes_eq version protocol_version))
                (λ h.
                  failed-Leaves (neg32 e.enotsup)
                    (neg32-ne-zero e.enotsup known.enotsup_range.0 known.enotsup_range.1))
                (λ h. attach-Leaves aname size)

  reinitialize-Leaves : Leaves {S = S} (λ s. Unit {0}) Attached (reinitialize t e)
  unfolding reinitialize reinitialize_with initialize_with
  reinitialize-Leaves =
      bind-Leaves {Q = λ aname. Flagged empty_pool}
        (step-Leaves (λ s. s.aname)
          (λ s. record s { fid_pool = empty_pool; next_tag = 0; reinitializing = true })
          (λ s. unfold restart reset in refl) (λ s u. record { flag = refl; pool = refl }))
        λ aname.
          bind-Leaves {Q = Attached}
            (bind-Leaves {Q = λ u. Flagged empty_pool}
              (step-Leaves (λ s. tt) (λ s. record s { aname = aname })
                (λ s. unfold set_aname in refl) (λ s f. record { flag = f.flag; pool = f.pool }))
              λ u.
                bind-Leaves
                  (inner-Leaves empty_pool 0 (build_tversion max_message_size protocol_version) new)
                  λ reply. after_version-Leaves aname reply)
            λ rc.
              bind-Leaves {Q = λ u s. Attached rc s}
                (step-Leaves (λ s. tt) (λ s. record s { reinitializing = false })
                  (λ s. unfold set_reinitializing in refl) (λ s h. h))
                λ u. pure-Leaves rc (λ s h. h)

  -- After a Reinitialize that returns 0 the pool holds the root fid alone: every other fid that the
  -- session had handed out is forgotten.
  pub reinitialize-root :
      (s s' : Session S) → reinitialize t e s ≡ ok (0, s') → s'.fid_pool ≡ root_pool
  reinitialize-root s s' h = reinitialize-Leaves.run s s' 0 tt h refl
