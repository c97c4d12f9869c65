-- ===== src/Backend/Proxying/Status.antt =====
-- What one proxied request does to the status that the client receives, to the body of the request
-- and to the other parts of the state (`executeRequest` of internal/proxy/backend.go).
use kortex.Common.{
  ap, ◌∙◌, String, ℕ, ◌<◌, ◌≡◌, ◌≢◌, ◌⊎◌, inl, inr, refl, Option, none, some, [], ◌∷◌, ◌++◌, arith,
  Result, ok, err, Option-cases,
}
use kortex.Common.Int.{ℤ}
use kortex.Http.{Request, Response, ResponseWriter, write_header, write}
use kortex.Http.Laws.{or_code}
use kortex.Api.{InferenceBackend, InferenceRoute}
use kortex.Backend.Target.{Url, TargetError, build_target_url}
use kortex.Backend.Proxying.{
  delivered, String, World, Env, HandlerError, execute_request, copy_response, answered, sent_to,
  director, status_error, copy_error, left_body, copy_aborted,
}

abbrev pub client_status : World → Option ℕ
client_status w = w.writer.status

-- The answer of a backend sets the status, unless it has been set.
status-copy_response :
    (b : InferenceBackend) (resp : Response) (w : ResponseWriter)
    → (copy_response b resp w).writer.status ≡ or_code w.status resp.status_code
unfolding copy_response write_header write
status-copy_response b resp w = ground arith

code-copy_response :
    (b : InferenceBackend) (resp : Response) (w : ResponseWriter)
    → (copy_response b resp w).status_code ≡ resp.status_code
unfolding copy_response
code-copy_response b resp w = ground arith

delivered-status :
    (o : Option String) (resp : Response) → (delivered o resp).status_code ≡ resp.status_code
delivered-status none resp = refl
delivered-status (some part) resp = refl

-- The answer that a backend gives to the request that the director makes, if it has a URL.
abbrev pub or_code? : Option ℕ → Option Response → Option ℕ
or_code? o none = o
or_code? o (some resp) = or_code o resp.status_code

abbrev code_of : Option Response → ℕ
code_of none = 502
code_of (some resp) = resp.status_code

-- The error that an answer leads to, where copying its body may break off.
abbrev pub error_of : Option String → Option Response → Option HandlerError
error_of broken_off none = status_error 502
error_of broken_off (some resp) = copy_error broken_off resp.status_code

no_success :
    (broken_off : Option String) {answer : Option Response} {e : Option HandlerError}
    → e ≡ error_of broken_off answer
    → e ≡ none
    → answer ≡ none
    → ⊥
no_success broken_off p h silent = ground arith

module _ (env : Env) (i : ℕ) (route : InferenceRoute) (b : InferenceBackend) where
  answered_lem :
      (answer : Option Response) (w : World)
      → (client_status (answered env i route b answer w).0 ≡ or_code? (client_status w) answer)
        × ((answered env i route b answer w).1 ≡ code_of answer)
        × ((answered env i route b answer w).2 ≡ error_of (env.attempt i).broken_off answer)
  unfolding answered
  answered_lem none w = (refl, refl, refl)
  answered_lem (some resp) w =
      let o = (env.attempt i).broken_off in
      let code = code-copy_response b (delivered o resp) w.writer ∙ delivered-status o resp in
      (
        status-copy_response b (delivered o resp) w.writer
            ∙ ap (or_code w.writer.status) (delivered-status o resp),
        ground (arith, code),
        ap (copy_error o) (ground (arith, code)),
      )

  module _ (timeout : ℤ) (req : Request) where
    -- What the environment answers to this attempt.
    abbrev pub answer_of : World → Url → Option Response
    answer_of w url = (env.attempt i).round_trip timeout (director env b url req w.body)

    -- A request that has a URL sets the status, if it has not been set, to that of the answer, and
    -- returns the code of the answer, 502 if there is none, with an error from 500 on and
    -- where copying the body breaks off.
    pub execute_request-answer :
        (url : Url) (w : World)
        → build_target_url env.parse_url b ≡ ok url
        → (client_status (execute_request env i timeout route b req w).0
            ≡ or_code? (client_status w) (answer_of w url))
          × ((execute_request env i timeout route b req w).1 ≡ code_of (answer_of w url))
          × ((execute_request env i timeout route b req w).2
              ≡ error_of (env.attempt i).broken_off (answer_of w url))
    unfolding execute_request
    execute_request-answer url w e = rw e (
        answered_lem (answer_of w url)
          (record w { sent = w.sent ++ director env b url req w.body ∷ [] }))

    sent_to_keeps :
        (target : Result TargetError Url) (w : World) (s : ℕ)
        → client_status w ≡ some s
        → client_status (sent_to env i timeout route b req target w).0 ≡ some s
    unfolding sent_to
    sent_to_keeps (err x) w s h = h
    sent_to_keeps (ok url) w s h = ground (
      arith,
      answered_lem (answer_of w url)
          (record w { sent = w.sent ++ director env b url req w.body ∷ [] }),
    )

    -- A status that has been sent is kept.
    pub execute_request_keeps_status :
        (w : World) (s : ℕ)
        → client_status w ≡ some s
        → client_status (execute_request env i timeout route b req w).0 ≡ some s
    unfolding execute_request
    execute_request_keeps_status w s h = sent_to_keeps (build_target_url env.parse_url b) w s h

    sent_to_error :
        (target : Result TargetError Url) (w : World)
        → ((sent_to env i timeout route b req target w).2 ≡ none)
        → ((sent_to env i timeout route b req target w).1 < 500)
    unfolding sent_to answered
    sent_to_error (err x) w h = ground arith
    sent_to_error (ok url) w h = ground arith

    -- Without an error the status code is not one of the server's errors.
    pub execute_request-lt_500 :
        (w : World)
        → (execute_request env i timeout route b req w).2 ≡ none
        → (execute_request env i timeout route b req w).1 < 500
    unfolding execute_request
    execute_request-lt_500 w h = sent_to_error (build_target_url env.parse_url b) w h

    sent_to-answers :
        (target : Result TargetError Url) (w : World)
        → (sent_to env i timeout route b req target w).2 ≡ none
        → client_status (sent_to env i timeout route b req target w).0 ≢ none
    unfolding sent_to
    sent_to-answers (err x) w h = cc
    sent_to-answers (ok url) w h =
        let w1 = record w { sent = w.sent ++ director env b url req w.body ∷ [] } in
        elim (Option-cases (answer_of w url)) [
          | inl silent ↦
              absurd (
                no_success (env.attempt i).broken_off (answered_lem (answer_of w url) w1).2 h
                  silent)
          | inr (resp, e) ↦ ground (arith, answered_lem (answer_of w url) w1)
        ]

    -- Without an error the client has received a status.
    pub execute_request-answers :
        (w : World)
        → (execute_request env i timeout route b req w).2 ≡ none
        → client_status (execute_request env i timeout route b req w).0 ≢ none
    unfolding execute_request
    execute_request-answers w h = sent_to-answers (build_target_url env.parse_url b) w h

    sent_to-aborts :
        (target : Result TargetError Url) (w : World)
        → (sent_to env i timeout route b req target w).2 ≡ some copy_aborted
        → client_status (sent_to env i timeout route b req target w).0 ≢ none
    unfolding sent_to
    sent_to-aborts (err x) w h = ground arith
    sent_to-aborts (ok url) w h =
        let w1 = record w { sent = w.sent ++ director env b url req w.body ∷ [] } in
        elim (Option-cases (answer_of w url)) [
          | inl silent ↦ ground (arith, answered_lem (answer_of w url) w1, silent, h)
          | inr (resp, e) ↦ ground (arith, answered_lem (answer_of w url) w1)
        ]

    -- Where copying the body breaks off the client has received a status.
    pub execute_request-aborts :
        (w : World)
        → (execute_request env i timeout route b req w).2 ≡ some copy_aborted
        → client_status (execute_request env i timeout route b req w).0 ≢ none
    unfolding execute_request
    execute_request-aborts w h = sent_to-aborts (build_target_url env.parse_url b) w h

    -- What a request leaves alone, and what it does to the body and to the requests sent: with a
    -- URL it sends one request more, with the body that was there, of which then is left what is unread, if it is buffered.
    pub record Effects (w w' : World) : Type 0 where
      pub same_breakers : w'.breakers ≡ w.breakers
      pub same_metrics : w'.metrics ≡ w.metrics
      pub same_waits : w'.waits ≡ w.waits
      pub same_buffered : w'.buffered ≡ w.buffered
      pub sends :
          ((w'.sent ≡ w.sent) × (w'.body ≡ w.body))
          ⊎ ((url : Url) × (w'.sent ≡ w.sent ++ director env b url req w.body ∷ [])
              × (w'.body ≡ left_body (env.attempt i) w))

    sent_to-Effects :
        (target : Result TargetError Url) (w : World)
        → Effects w (sent_to env i timeout route b req target w).0
    unfolding sent_to answered
    sent_to-Effects (err x) w = record {
      same_breakers = refl;
      same_metrics = refl;
      same_waits = refl;
      same_buffered = refl;
      sends = inl (refl, refl);
    }
    sent_to-Effects (ok url) w = record {
      same_breakers = ground arith;
      same_metrics = ground arith;
      same_waits = ground arith;
      same_buffered = ground arith;
      sends = inr (url, ground arith, ground arith);
    }

    pub execute_request-Effects :
        (w : World) → Effects w (execute_request env i timeout route b req w).0
    unfolding execute_request
    execute_request-Effects w = sent_to-Effects (build_target_url env.parse_url b) w
