-- ===== src/Protocol/Sharing/Mixing.antt =====
-- What two threads make of their requests.
use progetto.Prelude.{
  append_assoc, append-nil, sym, false, ap, true, ◌∙◌, Bool, ◌≤◌, none, replicate, Option, List, ℕ,
  zero, suc, ◌≡◌, ◌≢◌, arith, refl, [], ◌∷◌, ◌++◌, some, Bytes, Lacks,
}
use progetto.CLib.Tokens.{strtok, skip_delimiters, next_token, break_at}
use progetto.Protocol.Sharing.{
  move_second, move_first, Threads, in_loop, reads, resume, parsed, strtok_from, interleave, bar,
  Parser, parser_step,
}
use progetto.Protocol.Dialog.{collect_parts}

-- A parser and the position, after `k` steps of its own.
unfoldable alone : ℕ → Bytes × Parser → Bytes × Parser
alone zero p = p
alone (suc k) (position, parser) = alone k (parser_step position parser)

break_at-append : (b : ℕ) (s rest : Bytes) → Lacks b s → break_at b (s ++ b ∷ rest) ≡ (s, rest)
unfolding break_at
break_at-append b [] rest h = ground arith
break_at-append b (c ∷ s) rest h = ground (arith, break_at-append b s rest h.1)

break_at_self : (b : ℕ) (s : Bytes) → Lacks b s → break_at b s ≡ (s, [])
unfolding break_at
break_at_self b [] h = refl
break_at_self b (c ∷ s) h = ground (arith, break_at_self b s h.1)

strtok-append :
    (b : ℕ) (s rest : Bytes) → Lacks b s → s ≢ [] → strtok b (s ++ b ∷ rest) ≡ some (s, rest)
unfolding strtok skip_delimiters next_token
strtok-append b [] rest h some_byte = absurd (some_byte refl)
strtok-append b (c ∷ s) rest h some_byte = ground (arith, break_at-append b (c ∷ s) rest h)

strtok_nil : strtok bar [] ≡ none
unfolding strtok skip_delimiters next_token
strtok_nil = refl

strtok_self : (b : ℕ) (s : Bytes) → Lacks b s → s ≢ [] → strtok b s ≡ some (s, [])
unfolding strtok skip_delimiters next_token
strtok_self b [] h some_byte = absurd (some_byte refl)
strtok_self b (c ∷ s) h some_byte = ground (arith, break_at_self b (c ∷ s) h)

alone_parsed :
    (k : ℕ) (position : Bytes) (parts : List Bytes)
    → alone k (position, parsed parts) ≡ (position, parsed parts)
unfolding parser_step alone
alone_parsed zero position parts = refl
alone_parsed (suc k) position parts = alone_parsed k position parts

-- A token with the text behind it.
abbrev at_hand : Bytes × Option Bytes → Option (Bytes × Bytes)
at_hand (position, none) = none
at_hand (position, some token) = some (token, position)

at_hand-resume : (o : Option (Bytes × Bytes)) → at_hand (resume o) ≡ o
at_hand-resume none = refl
at_hand-resume (some (token, rest)) = refl

alone-loops :
    (n k : ℕ) (p : Bytes × Option Bytes) (parts : List Bytes)
    → n ≤ k
    → (alone (suc k) (in_loop n parts p)).1 ≡ parsed (parts ++ collect_parts n (at_hand p))
unfolding parser_step collect_parts strtok_from alone
alone-loops zero k (position, none) parts h =
    ap (λ z. z.1) (alone_parsed k position parts) ∙ ap parsed (sym (append-nil parts))
alone-loops zero k (position, some token) parts h =
    ap (λ z. z.1) (alone_parsed k position parts) ∙ ap parsed (sym (append-nil parts))
alone-loops (suc n) k (position, none) parts h =
    ap (λ z. z.1) (alone_parsed k position parts) ∙ ap parsed (sym (append-nil parts))
alone-loops (suc n) zero (position, some token) parts h = absurd (omega arith)
alone-loops (suc n) (suc k) (position, some token) parts h =
    alone-loops n k (strtok_from position) (parts ++ token ∷ []) (omega arith)
    ∙ ap parsed (
        append_assoc parts (token ∷ []) _
        ∙ ap (λ o. parts ++ token ∷ collect_parts n o) (at_hand-resume (strtok bar position)))

alone-reads :
    (position data_copy : Bytes)
    → (alone 5 (position, reads data_copy)).1 ≡ parsed (collect_parts 3 (strtok bar data_copy))
unfolding parser_step strtok_from alone
alone-reads position data_copy =
    alone-loops 3 3 (strtok_from data_copy) [] (omega arith)
    ∙ ap (λ o. parsed (collect_parts 3 o)) (at_hand-resume (strtok bar data_copy))

interleave-first :
    (k : ℕ) (turns : List Bool) (s : Threads)
    → interleave (replicate k true ++ turns) s
      ≡ interleave turns (record s {
        position = (alone k (s.position, s.first)).0;
        first = (alone k (s.position, s.first)).1;
      })
unfolding interleave alone
interleave-first zero turns s = refl
interleave-first (suc k) turns s = interleave-first k turns (move_first s)

interleave-second :
    (k : ℕ) (turns : List Bool) (s : Threads)
    → interleave (replicate k false ++ turns) s
      ≡ interleave turns (record s {
        position = (alone k (s.position, s.second)).0;
        second = (alone k (s.position, s.second)).1;
      })
unfolding interleave alone
interleave-second zero turns s = refl
interleave-second (suc k) turns s = interleave-second k turns (move_second s)

-- Two requests that are parsed one after the other are read as by `parse_client_dialog_message`
-- without threads, whatever position is left in the static storage.
pub interleave-separate :
    (position d e : Bytes)
    → ((interleave
          (replicate 5 true ++ replicate 5 false)
          (record { position = position; first = reads d; second = reads e })).first
        ≡ parsed (collect_parts 3 (strtok bar d)))
      × ((interleave
            (replicate 5 true ++ replicate 5 false)
            (record { position = position; first = reads d; second = reads e })).second
          ≡ parsed (collect_parts 3 (strtok bar e)))
unfolding interleave
interleave-separate position d e =
    let s : Threads = record { position = position; first = reads d; second = reads e } in
    let s' : Threads = record s {
      position = (alone 5 (position, reads d)).0;
      first = (alone 5 (position, reads d)).1;
    } in
    let steps = interleave-first 5 (replicate 5 false) s ∙ interleave-second 5 [] s' in
    (
      ap (λ z. z.first) steps ∙ alone-reads position d,
      ap (λ z. z.second) steps ∙ alone-reads s'.position e,
    )

-- A nonempty field without a bar.
abbrev pub IsField : Bytes → Type 0
IsField s = Lacks bar s × (s ≢ [])

abbrev pub request : Bytes → Bytes → Bytes → Bytes
request p l c = p ++ bar ∷ (l ++ bar ∷ c)

-- The second thread calls `strtok` behind the first call of the first thread.
abbrev pub mixing : List Bool
mixing = true ∷ false ∷ true ∷ true ∷ true ∷ true ∷ false ∷ false ∷ []

-- Two valid requests can be read wrongly: if the second thread begins between the first two calls of
-- the first, then the first request gets the language and the conversation of the second client, and
-- the second request has one part and is refused.
pub interleave-mixed :
    (position p l c p' l' c' : Bytes)
    → IsField p
    → IsField l
    → IsField c
    → IsField p'
    → IsField l'
    → IsField c'
    → ((interleave mixing (record {
      position = position;
      first = reads (request p l c);
      second = reads (request p' l' c');
    })).first
        ≡ parsed (p ∷ l' ∷ c' ∷ []))
      × ((interleave mixing (record {
        position = position;
        first = reads (request p l c);
        second = reads (request p' l' c');
      })).second
          ≡ parsed (p' ∷ []))
unfolding interleave parser_step strtok_from
interleave-mixed position p l c p' l' c' hp hl hc hp' hl' hc' =
    let a = strtok-append bar p (l ++ bar ∷ c) hp.0 hp.1 in
    let b = strtok-append bar p' (l' ++ bar ∷ c') hp'.0 hp'.1 in
    let d = strtok-append bar l' c' hl'.0 hl'.1 in
    let e = strtok_self bar c' hc'.0 hc'.1 in rw (a, b, d, e, strtok_nil) (refl, rw strtok_nil refl)
