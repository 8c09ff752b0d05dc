-- ===== src/Cloud/Request/Bounds.antt =====
-- How much `requestJSON` of internal/aliyunpan/source_client.go asks for, and when it succeeds.
use tdrive_aliyunpan.Base.{
  if_elim, ℕ, zero, suc, ◌+◌, ◌<◌, ◌≤◌, ◌≡◌, refl, ◌∙◌, ◌⊎◌, Bool, true, false, ◌&&◌, All, ◌∷◌,
  Option, none, some, is_empty, length, ltb, ◌==◌, inl, inr, arith,
}
use tdrive_aliyunpan.Cloud.Request.{
  Words, RequestError, Credentials, Reply, Transport, lost, cut_off, replied, ApiResponseError,
  decode_api_response_error, map_api_error, refresh_access_token, World, Sent, Verdict, ends, again,
  restarts, wait_then, judged, received, send_once, go_on, send_rounds, after_rounds, given_up,
  request_json,
}

-- An answer that was a success, to one of the requests.
abbrev pub Accepted : Words → World → Type 0
Accepted s w =
    (a : ℕ) × (t : ℕ) × (r : Reply) × (a < 2)
    × (t < 3)
    × (w.transport a t ≡ replied r)
    × (decode_api_response_error s r ≡ none)
    × (r.decodes ≡ true)

-- No request without a token.
abbrev pub HasTokens : Sent → Type 0
HasTokens sent = All (λ token. is_empty token ≡ false) sent.tokens

module _ (s : Words) (w : World) where
  -- What rounds of requests do, from one state: as many requests as the budget, one refresh at most and
  -- none in the second authentication, and a success only for an accepted answer.
  record Within (a budget : ℕ) (sent : Sent) (o : Verdict × Sent) : Type 0 where
    few : length o.1.tokens ≤ length sent.tokens + budget
    once : o.1.refreshes ≤ sent.refreshes + 1
    unrefreshed : (a == 0) ≡ false → o.1.refreshes ≡ sent.refreshes
    going : o.0 ≡ again → o.1.refreshes ≡ sent.refreshes
    tokens : HasTokens sent → HasTokens o.1
    accepted : o.0 ≡ ends none → Accepted s w

  module _ (a t observed : ℕ) (authenticates : a < 2) (third : t < 3) (sent : Sent) where
    waited : (b : Bool) → Within a 0 sent (wait_then b, sent)
    waited true = record {
      few = omega arith;
      once = omega arith;
      unrefreshed = λ e. refl;
      going = λ e. refl;
      tokens = λ h. h;
      accepted = λ e. absurd (cc);
    }
    waited false = record {
      few = omega arith;
      once = omega arith;
      unrefreshed = λ e. refl;
      going = λ e. refl;
      tokens = λ h. h;
      accepted = λ e. absurd (cc);
    }

    ended : (e : RequestError) → Within a 0 sent (ends (some e), sent)
    ended e = record {
      few = omega arith;
      once = omega arith;
      unrefreshed = λ h. refl;
      going = λ h. refl;
      tokens = λ h. h;
      accepted = λ h. absurd (cc);
    }

    asked :
        (failure : Option RequestError) (c : Credentials)
        → (a == 0) ≡ true
        → Within a 0 sent (
          elim failure [ none ↦ restarts | some f ↦ ends (some f) ],
          record sent { credentials = c; refreshes = sent.refreshes + 1 },
        )
    asked none c h = record {
      few = omega arith;
      once = omega arith;
      unrefreshed = λ e. absurd (cc);
      going = λ e. absurd (cc);
      tokens = λ p. p;
      accepted = λ e. absurd (cc);
    }
    asked (some f) c h = record {
      few = omega arith;
      once = omega arith;
      unrefreshed = λ e. absurd (cc);
      going = λ e. absurd (cc);
      tokens = λ p. p;
      accepted = λ e. absurd (cc);
    }

    judged-Within :
        (r : Reply) (e : Option ApiResponseError)
        → w.transport a t ≡ replied r
        → decode_api_response_error s r ≡ e
        → Within a 0 sent (judged w a t observed sent e r.decodes)
    judged-Within r none h k = record {
      few = omega arith;
      once = omega arith;
      unrefreshed = λ e. refl;
      going = λ e. refl;
      tokens = λ p. p;
      accepted = λ e. (a, t, r, authenticates, third, h, k, ground (arith, e));
    }
    judged-Within r (some e) h k =
        let tried = refresh_access_token observed w.saves w.token sent.credentials in
        let P = Within a 0 sent in
        if_elim P (e.token_expired && a == 0) (λ b. asked tried.0 tried.1 (ground (arith, b)))
          (λ _.
            if_elim P (e.retryable && ltb t 2) (λ _. waited (w.cut a t))
              (λ _. ended (map_api_error e)))

    received-Within :
        (o : Transport) → w.transport a t ≡ o → Within a 0 sent (received s w a t observed sent o)
    received-Within (lost true) h = ended RequestError.context_ended
    received-Within (lost false) h =
        if_elim (Within a 0 sent) (ltb t 2) (λ _. waited (w.cut a t))
          (λ _. ended RequestError.request_failed)
    received-Within cut_off h = ended RequestError.unreadable
    received-Within (replied r) h = judged-Within r (decode_api_response_error s r) h refl

  send_once-Within :
      (a t observed : ℕ) (sent : Sent)
      → a < 2
      → t < 3
      → Within a 1 sent (send_once s w a t observed sent)
  unfolding send_once
  send_once-Within a t observed sent h k =
      let c = w.others a t sent.credentials in
      if_elim (Within a 1 sent) (is_empty c.access)
        (λ _. record {
          few = omega arith;
          once = omega arith;
          unrefreshed = λ e. refl;
          going = λ e. refl;
          tokens = λ p. p;
          accepted = λ e. absurd (cc);
        })
        (λ some_token.
          let i =
            received-Within a t observed h k
              (record sent { credentials = c; tokens = c.access ∷ sent.tokens }) (w.transport a t)
              refl in
          record {
            few = omega (arith, i.few);
            once = i.once;
            unrefreshed = i.unrefreshed;
            going = i.going;
            tokens = λ p. i.tokens (some_token, p);
            accepted = i.accepted;
          })

  send_rounds-Within :
      (a observed left t : ℕ) (sent : Sent)
      → a < 2
      → left + t ≤ 3
      → Within a left sent (send_rounds s w a observed left t sent)
  unfolding send_rounds
  send_rounds-Within a observed zero t sent h k = record {
    few = omega arith;
    once = omega arith;
    unrefreshed = λ e. refl;
    going = λ e. refl;
    tokens = λ p. p;
    accepted = λ e. absurd (cc);
  }
  send_rounds-Within a observed (suc left) t sent h k =
      chained (send_once s w a t observed sent) (send_once-Within a t observed sent h (omega arith))
        (λ next. send_rounds-Within a observed left (suc t) next h (omega arith))
    where
      chained :
          (o : Verdict × Sent)
          → Within a 1 sent o
          → ((next : Sent) → Within a left next (send_rounds s w a observed left (suc t) next))
          → Within a (suc left) sent (go_on (send_rounds s w a observed left (suc t)) o)
      chained (ends outcome, after) i rest = record {
        few = omega (arith, i.few);
        once = i.once;
        unrefreshed = i.unrefreshed;
        going = i.going;
        tokens = i.tokens;
        accepted = i.accepted;
      }
      chained (restarts, after) i rest = record {
        few = omega (arith, i.few);
        once = i.once;
        unrefreshed = i.unrefreshed;
        going = i.going;
        tokens = i.tokens;
        accepted = i.accepted;
      }
      chained (again, after) i rest =
          let j = rest after in
          let same : after.refreshes ≡ sent.refreshes = i.going refl in
          record {
            few = omega (arith, i.few, j.few);
            once = omega (arith, j.once, same);
            unrefreshed = λ e. j.unrefreshed e ∙ same;
            going = λ e. j.going e ∙ same;
            tokens = λ p. j.tokens (i.tokens p);
            accepted = j.accepted;
          }

  finishes :
      (sent : Sent) (o : Verdict × Sent)
      → Within 1 3 sent o
      → let (outcome, after) = after_rounds given_up o in
        (length after.tokens ≤ length sent.tokens + 3)
        × (after.refreshes ≡ sent.refreshes)
        × (HasTokens sent → HasTokens after)
        × (outcome ≡ none → Accepted s w)
  finishes sent (ends none, after) i = (i.few, i.unrefreshed refl, i.tokens, λ e. i.accepted refl)
  finishes sent (ends (some f), after) i = (i.few, i.unrefreshed refl, i.tokens, λ e. absurd (cc))
  finishes sent (again, after) i = (i.few, i.unrefreshed refl, i.tokens, λ e. absurd (cc))
  finishes sent (restarts, after) i = (i.few, i.unrefreshed refl, i.tokens, λ e. absurd (cc))

  -- A request of the client sends at most six HTTP requests, none of them without a token, and asks for a
  -- new token at most once, whatever the server and the token service answer and others do to the
  -- credentials; and it succeeds only after an answer that is a success and that decodes.
  pub request_json-bounded :
      (sent : Sent)
      → let (outcome, after) = request_json s w sent in
        (length after.tokens ≤ length sent.tokens + 6)
        × (after.refreshes ≤ sent.refreshes + 1)
        × (HasTokens sent → HasTokens after)
        × (outcome ≡ none → Accepted s w)
  unfolding request_json
  request_json-bounded sent =
      restarted (send_rounds s w 0 sent.credentials.revision 3 0 sent)
        (send_rounds-Within 0 sent.credentials.revision 3 0 sent (omega arith) (omega arith))
    where
      second :
          (next : Sent)
          → Within 0 3 sent (restarts, next) ⊎ Within 0 3 sent (again, next)
          → let (outcome, after) =
              after_rounds given_up (send_rounds s w 1 next.credentials.revision 3 0 next) in
            (length after.tokens ≤ length sent.tokens + 6)
            × (after.refreshes ≤ sent.refreshes + 1)
            × (HasTokens sent → HasTokens after)
            × (outcome ≡ none → Accepted s w)
      second next i =
          let few : length next.tokens ≤ length sent.tokens + 3 = elim i [
            | inl a ↦ a.few
            | inr a ↦ a.few
          ] in
          let once : next.refreshes ≤ sent.refreshes + 1 = elim i [
            | inl a ↦ a.once
            | inr a ↦ a.once
          ] in
          let kept : HasTokens sent → HasTokens next = elim i [
            | inl a ↦ a.tokens
            | inr a ↦ a.tokens
          ] in
          let o = send_rounds s w 1 next.credentials.revision 3 0 next in
          let f =
            finishes next o (
              send_rounds-Within 1 next.credentials.revision 3 0 next (omega arith)
                (omega arith)) in
          (omega (arith, f.0), omega (arith, f.1), (λ p. f.2 (kept p)), f.3)

      restarted :
          (o : Verdict × Sent)
          → Within 0 3 sent o
          → let (outcome, after) =
              after_rounds
                (λ next.
                  after_rounds given_up (send_rounds s w 1 next.credentials.revision 3 0 next))
                o in
            (length after.tokens ≤ length sent.tokens + 6)
            × (after.refreshes ≤ sent.refreshes + 1)
            × (HasTokens sent → HasTokens after)
            × (outcome ≡ none → Accepted s w)
      restarted (ends none, after) i =
          (omega (arith, i.few), i.once, i.tokens, λ e. i.accepted refl)
      restarted (ends (some f), after) i =
          (omega (arith, i.few), i.once, i.tokens, λ e. absurd (cc))
      restarted (again, after) i = second after (inr i)
      restarted (restarts, after) i = second after (inl i)
