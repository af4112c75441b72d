-- ===== src/Plugins/TokenValidator/Legacy.antt =====
-- The handler for the first form of the configuration.
use native.Mathlib.Decide.{dec_lt}
use yaagents_gateway.Prelude.{String, none, some, ◌≡◌, refl, ◌∙◌, inl, inr, Option-cases}
use yaagents_gateway.Prelude.Result.{Result-cases}
use yaagents_gateway.Value.{Object}
use yaagents_gateway.Http.Header
use yaagents_gateway.Http.Header.{get-set, get-set_self, canonical_key}
use yaagents_gateway.Http.Writer.{
  Writer, Sent, status_of, content_type_error, write_error, write_header, write,
}
use yaagents_gateway.Http.Request.{Request, Handler, with_context}
use yaagents_gateway.Http.Laws.{write_error_lem}
use yaagents_gateway.Http.Context.{Context}
use yaagents_gateway.Plugins.TokenValidator.LegacyTokens.{
  IsSigned, validate-IsSigned, IsIdentity, identified_v1-IsIdentity,
}
use yaagents_gateway.Plugins.{Part}
use yaagents_gateway.Plugins.TokenValidator.{handle_v1, identified_v1}
use yaagents_gateway.Plugins.TokenValidator.Answers.{write_missing_token}
use yaagents_gateway.Plugins.TokenValidator.Config.{Settings}
use yaagents_gateway.Plugins.TokenValidator.Validators.{Provider, Store, validate}
use yaagents_gateway.Plugins.TokenValidator.Verify.{extract_bearer}

abbrev pub challenge : String
challenge = "Bearer realm=\"yaagents-gateway\""

-- The answer is 401 and tells the client to authenticate.
abbrev pub IsChallenge : Writer → Type 0
IsChallenge w =
    (sent : Sent) × (w.sent ≡ some sent)
    × (sent.status ≡ 401)
    × (Header.get sent.header "WWW-Authenticate" ≡ challenge)

write_missing_token-IsChallenge :
    (r : Request) (w : Writer) → w.sent ≡ none → IsChallenge (write_missing_token r w)
unfolding write_missing_token write_error write_header write canonical_key dec_lt
write_missing_token-IsChallenge r w unsent =
    let asked = Header.set w.header "WWW-Authenticate" challenge in
    let h = Header.set asked "Content-Type" content_type_error in
    (
      record { status = 401; header = h },
      rw unsent refl,
      refl,
      get-set asked "WWW-Authenticate" "Content-Type" content_type_error
          ∙ get-set_self w.header "WWW-Authenticate" challenge,
    )

module _ {W X : Type 0} (d : Provider X) (c : Settings) (at : Part W (Store X)) where
  -- A request whose bearer token golang-jwt accepts, with the configured method, an expiry and the
  -- configured audience, under the secret or the key for its key id, goes on with a context that the
  -- token's claims identify. Any other is answered without the next handler, whatever that is, and,
  -- where nothing was sent yet: 401 with a challenge and no change of the state if it has no bearer
  -- token, and 403 if it has one.
  pub handle_v1_lem :
      (next : Handler W) (r : Request) (w : Writer) (s : W)
      → ((token : String) (mc : Object)
          → extract_bearer r ≡ some token
          → IsSigned d c (at.part s) token mc
          → (ctx : Context) × IsIdentity mc r.context ctx
            × (handle_v1 d c at next r w s
                ≡ next (with_context r ctx) w (at.with_part (validate d c token (at.part s)).1 s)))
        × (((token : String) (mc : Object)
              → extract_bearer r ≡ some token
              → ¬ IsSigned d c (at.part s) token mc)
            → ((other : Handler W) → handle_v1 d c at next r w s ≡ handle_v1 d c at other r w s)
              × (extract_bearer r ≡ none
                  → w.sent ≡ none
                  → IsChallenge (handle_v1 d c at next r w s).0
                    × ((handle_v1 d c at next r w s).1 ≡ s))
              × ((token : String)
                  → extract_bearer r ≡ some token
                  → w.sent ≡ none
                  → status_of (handle_v1 d c at next r w s).0 ≡ some 403))
  unfolding handle_v1
  handle_v1_lem next r w s = (
    λ token mc found signed.
        (let good = (validate-IsSigned d c (at.part s) token mc).1 signed in
          (
            identified_v1 mc r.context,
            identified_v1-IsIdentity mc r.context,
            rw (found, good, handle_v1) refl,
          )),
    λ nobody. elim (Option-cases (extract_bearer r)) [
      | inl absent ↦
          rw (absent, handle_v1)
            (
              λ other. refl,
              λ _ unsent. (write_missing_token-IsChallenge r w unsent, refl),
              λ token found. absurd (cc found),
            )
      | inr (token, found) ↦ elim (Result-cases (validate d c token (at.part s)).0) [
        | inl (mc, good) ↦
            absurd (nobody token mc found ((validate-IsSigned d c (at.part s) token mc).0 good))
        | inr (e, bad) ↦
            rw (found, bad, handle_v1)
              (
                λ other. refl,
                λ absent. absurd (cc absent),
                λ other same unsent. (write_error_lem 403 _ w unsent).0,
              )
      ]
    ],
  )
