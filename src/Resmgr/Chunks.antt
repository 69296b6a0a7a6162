-- ===== src/Resmgr/Chunks.antt =====
-- The chunks that a write is sent in.
use qnx_unit_tests.Base.{
  ℕ, zero, suc, ◌+◌, ◌-◌, ◌%◌, ◌^◌, ◌≤◌, ◌<◌, List, [], ◌∷◌, ◌++◌, append_assoc, append-nil, true,
  false, ◌≡◌, refl, sym, ap, ◌∙◌, arith, ltb, leb, Bool-cases, inl, inr, ok, length, take, drop,
  length-drop, drop-drop, subst,
}
use qnx_unit_tests.Transport.{is_negative}
use qnx_unit_tests.Session.{Session, Act}
use qnx_unit_tests.Resmgr.Write.{
  WriteMsg, Sizes, brought, Ending, wrote, header_size_of, inline_bytes, to_write, copied_inline,
  copy_inline, fetch, write_loop, round,
}

module _ {A : Type 0} where
  length-take : (n : ℕ) (xs : List A) → n ≤ length xs → length (take n xs) ≡ n
  length-take zero xs h = refl
  length-take (suc n) [] h = absurd (omega arith)
  length-take (suc n) (x ∷ xs) h = ap suc (length-take n xs (omega arith))

  take-nil : (n : ℕ) → take n (let e : List A = [] in e) ≡ []
  take-nil zero = refl
  take-nil (suc n) = refl

  drop_nil : (n : ℕ) (xs : List A) → length xs ≤ n → drop n xs ≡ []
  drop_nil zero [] h = refl
  drop_nil zero (x ∷ xs) h = absurd (omega arith)
  drop_nil (suc n) [] h = refl
  drop_nil (suc n) (x ∷ xs) h = drop_nil n xs (omega arith)

  take-drop : (n : ℕ) (xs : List A) → take n xs ++ drop n xs ≡ xs
  take-drop zero xs = refl
  take-drop (suc n) [] = refl
  take-drop (suc n) (x ∷ xs) = ap (◌∷◌ x) (take-drop n xs)

  take-append-drop : (m n : ℕ) (xs : List A) → take m xs ++ take n (drop m xs) ≡ take (m + n) xs
  take-append-drop zero n xs = ap (λ k. take k xs) (omega arith)
  take-append-drop (suc m) n [] = take-nil n ∙ sym (take-nil (suc m + n))
  take-append-drop (suc m) n (x ∷ xs) =
      let e : suc m + n ≡ suc (m + n) = omega arith in rw e (ap (◌∷◌ x) (take-append-drop m n xs))

-- The writes follow one another from `offset`, each of one byte at least and at most `chunk`.
abbrev pub Consecutive : ℕ → ℕ → List (ℕ × List ℕ) → Type 0
Consecutive chunk offset [] = Unit {0}
Consecutive chunk offset ((at, bs) ∷ ws) =
    (at ≡ offset % 2 ^ 64)
    × (0 < length bs)
    × (length bs ≤ chunk)
    × Consecutive chunk (offset + length bs) ws

-- Their bytes, one after the other.
abbrev pub sent : List (ℕ × List ℕ) → List ℕ
sent [] = []
sent ((at, bs) ∷ ws) = bs ++ sent ws

-- The client's message holds `content` behind its header: the receive buffer a front of it, and
-- resmgr_msgread any part.
pub record Delivers (sizes : Sizes) (msg : WriteMsg) (content : List ℕ) : Type 0 where
  pub whole : msg.nbytes ≡ length content
  pub small : length content < 2 ^ 31
  pub buffered : inline_bytes sizes msg ≤ length msg.received
  pub front :
      (n k : ℕ)
      → n + k ≤ inline_bytes sizes msg
      → take k (drop n msg.received) ≡ take k (drop n content)
  pub rest :
      (n k : ℕ)
      → n + k ≤ length content
      → msg.msgread k (msg.ctp_offset + header_size_of sizes msg.xtype + n)
        ≡ brought (take k (drop n content))

-- From a session that is `Ready`, a Write of at most `bound` bytes takes every byte, and leaves such a
-- session; `log` is what the server has been sent.
pub record Accepts {S : Type 0} (bound : ℕ) (send : ℕ → List ℕ → Act S ℕ)
    (Ready : Session S → Type 0) (log : Session S → List (ℕ × List ℕ)) : Type 0 where
  pub run :
      (at : ℕ) (bs : List ℕ) (s : Session S)
      → Ready s
      → at < 2 ^ 64
      → length bs ≤ bound
      → (s' : Session S) × (send at bs s ≡ ok (length bs, s'))
        × (log s' ≡ log s ++ (at, bs) ∷ [])
        × Ready s'

module _ {S : Type 0} (sizes : Sizes) (msg : WriteMsg) (chunk : ℕ) (send : ℕ → List ℕ → Act S ℕ)
    (content : List ℕ) (d : Delivers sizes msg content) (some_chunk : 0 < chunk) where
  copy_inline_lem :
      (total k : ℕ) (s : Session S)
      → (0 < k → total + k ≤ inline_bytes sizes msg)
      → copy_inline sizes msg chunk send total k s ≡ ok (take k (drop total content), s)
  copy_inline_lem total zero s h = refl
  copy_inline_lem total (suc k) s h =
      let within : total + suc k ≤ inline_bytes sizes msg = h (omega arith) in
      let inside : leb (total + suc k) (length msg.received) ≡ true = ground (arith, d.buffered) in
      rw inside (ap (λ bs. ok (bs, s)) (d.front total (suc k) within))

  inline-le : inline_bytes sizes msg ≤ length content
  unfolding inline_bytes
  inline-le = ground (arith, d.whole)

  width :
      (total : ℕ)
      → total < length content
      → (0 < to_write sizes msg chunk send total)
        × (to_write sizes msg chunk send total ≤ chunk)
        × (total + to_write sizes msg chunk send total ≤ length content)
  unfolding to_write
  width total h = ground (arith, d.whole)

  copied_lem :
      (total : ℕ)
      → total < length content
      → (copied_inline sizes msg chunk send total ≤ to_write sizes msg chunk send total)
        × (0 < copied_inline sizes msg chunk send total
            → total + copied_inline sizes msg chunk send total ≤ inline_bytes sizes msg)
  unfolding copied_inline
  copied_lem total h = (ground arith, λ some_copied. ground arith)

  -- The two parts of a chunk are the next bytes of the content.
  fetch_lem :
      (total c : ℕ)
      → total < length content
      → c ≤ to_write sizes msg chunk send total
      → (second : List ℕ) × (fetch sizes msg chunk send total c ≡ brought second)
        × (take c (drop total content) ++ second
            ≡ take (to_write sizes msg chunk send total) (drop total content))
  fetch_lem total c h hc =
      let w = to_write sizes msg chunk send total in
      let (_, _, inside) = width total h in
      let plus : msg.ctp_offset + header_size_of sizes msg.xtype + total + c
          ≡ msg.ctp_offset + header_size_of sizes msg.xtype + (total + c) =
        omega arith in
      let all : c + (w - c) ≡ w = omega arith in
      elim (Bool-cases (ltb c w)) [
        | inl more ↦ (
          take (w - c) (drop (total + c) content),
          rw (more, plus) (d.rest (total + c) (w - c) (ground arith)),
          ap (λ r. take c (drop total content) ++ take (w - c) r) (sym (drop-drop total c content))
              ∙ take-append-drop c (w - c) (drop total content)
              ∙ ap (λ n. take n (drop total content)) all,
        )
        | inr done ↦ (
          [],
          rw done refl,
          append-nil (take c (drop total content))
              ∙ ap (λ n. take n (drop total content)) (ground arith),
        )
      ]

  -- The next bytes that are sent.
  abbrev next_bytes : ℕ → List ℕ
  next_bytes total = take (to_write sizes msg chunk send total) (drop total content)

  length-next_bytes :
      (total : ℕ)
      → total < length content
      → length (next_bytes total) ≡ to_write sizes msg chunk send total
  length-next_bytes total below =
      let (nonempty, bounded, inside) = width total below in
      length-take (to_write sizes msg chunk send total) (drop total content)
        (omega (arith, length-drop total content))

  round_lem :
      (again : ℕ → Act S Ending) (offset total : ℕ) (s s' : Session S)
      → total < length content
      → send ((offset + total) % 2 ^ 64) (next_bytes total) s ≡ ok (length (next_bytes total), s')
      → round sizes msg chunk send again offset total s
        ≡ again (total + to_write sizes msg chunk send total) s'
  round_lem again offset total s s' below ran =
      let w = to_write sizes msg chunk send total in
      let c = copied_inline sizes msg chunk send total in
      let (nonempty, bounded, inside) = width total below in
      let (c_le, c_in) = copied_lem total below in
      let (second, fetched, joined) = fetch_lem total c below c_le in
      let len_first : length (take c (drop total content)) ≡ c =
        length-take c (drop total content) (omega (arith, length-drop total content)) in
      let positive : is_negative w ≡ false = ground (arith, d.small) in
      let full : ltb w w ≡ false = ground arith in
      let sum : (total + w) % 2 ^ 32 ≡ total + w = omega (arith, d.small) in
      rw
        (
          copy_inline_lem total c s c_in,
          len_first,
          fetched,
          joined,
          ran,
          length-next_bytes total below,
          positive,
          full,
          sum,
        )
        refl

  module _ (Ready : Session S → Type 0) (log : Session S → List (ℕ × List ℕ))
      (accepts : Accepts chunk send Ready log) where
    -- What the loop has sent when it ends.
    abbrev pub Finishes : ℕ → ℕ → List ℕ → Session S → Act S Ending → Type 0
    Finishes offset total bs s m =
        (s' : Session S) × (ws : List (ℕ × List ℕ)) × (m s ≡ ok (wrote (length content), s'))
        × (log s' ≡ log s ++ ws)
        × (sent ws ≡ bs)
        × Consecutive chunk (offset + total) ws

    write_loop_from :
        (fuel offset total : ℕ) (s : Session S)
        → Ready s
        → total ≤ length content
        → length content - total < fuel
        → Finishes offset total
            (drop total content)
            s
            (write_loop sizes msg chunk send fuel offset total)
    unfolding write_loop
    write_loop_from zero offset total s ready h enough = absurd (omega arith)
    write_loop_from (suc fuel) offset total s ready h enough =
        elim (Bool-cases (ltb total msg.nbytes)) [
          | inr done ↦
              let end : total ≡ length content = ground (arith, d.whole) in
              (
                s,
                [],
                rw done (ap (λ n. ok (wrote n, s)) end),
                sym (append-nil (log s)),
                sym (drop_nil total content (omega (arith, end))),
                tt,
              )
          | inl more ↦
              let below : total < length content = ground (arith, d.whole) in
              let w = to_write sizes msg chunk send total in
              let (nonempty, bounded, inside) = width total below in
              let bs = take w (drop total content) in
              let at = (offset + total) % 2 ^ 64 in
              let len = length-next_bytes total below in
              let (s1, ran, logged, ready1) =
                accepts.run at bs s ready (omega arith) (omega (arith, len)) in
              let step =
                round_lem (write_loop sizes msg chunk send fuel offset) offset total s s1 below
                  ran in
              let (s2, ws, run, logs, bytes, steps) =
                write_loop_from fuel offset (total + w) s1 ready1 inside (omega arith) in
              (
                s2,
                (at, bs) ∷ ws,
                rw more (step ∙ run),
                logs ∙ ap (λ l. l ++ ws) logged ∙ append_assoc (log s) ((at, bs) ∷ []) ws,
                ap (λ r. bs ++ r) bytes
                    ∙ ap (λ r. bs ++ r) (sym (drop-drop total w content))
                    ∙ take-drop w (drop total content),
                (
                  refl,
                  omega (arith, len),
                  omega (arith, len),
                  subst (λ o. Consecutive chunk o ws) (omega (arith, len)) steps,
                ),
              )
        ]

    pub write_loop_lem :
        (fuel offset : ℕ) (s : Session S)
        → Ready s
        → length content ≤ fuel
        → Finishes offset 0 content s (write_loop sizes msg chunk send (suc fuel) offset 0)
    write_loop_lem fuel offset s ready enough =
        write_loop_from (suc fuel) offset 0 s ready (omega arith) (omega arith)
