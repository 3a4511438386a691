-- ===== src/PluginAuthRoutes/Replay.antt =====
-- A nonce over any calls of the three routes.
use nomothetic.Base.{
  ℕ, ◌≡◌, refl, Bool, false, Option, none, List, Result, ok, raised, is_ok, ◌≢◌, [], ◌∷◌, arith,
}
use mathlib.Core.Path.{sym, subst, ◌∙◌}
use nomothetic.Base.Text.{Text, text_eq_refl}
use nomothetic.Auth.Libraries.{Jose}
use nomothetic.Base.Dict
use nomothetic.Base.Dict.{get-remove}
use nomothetic.PluginAuth.Keys.{KeyLibrary}
use nomothetic.PluginAuth.Challenges.{ChallengeStore, consume}
use nomothetic.PluginAuthRoutes.Token.{proven}
use nomothetic.PluginAuthRoutes.Gone.{IsGone, register-Gone, challenge-Gone, token-Gone}
use nomothetic.PluginAuthRoutes.{
  RouteError, AppStores, Context, PluginTokenRequest, PluginTokenResponse, token,
  PluginRegisterRequest, register, challenge,
}

-- A call of a route, with what the outside gives it.
pub data RouteCall : Type 0 where
  registers : Context → PluginRegisterRequest → (writes : Bool) → RouteCall
  challenges : Context → (plugin nonce : Text) → RouteCall
  tokens : Context → PluginTokenRequest → RouteCall

-- No challenge draws the nonce.
abbrev pub IsNotDrawn : Text → List RouteCall → Type 0
IsNotDrawn nonce [] = Unit
IsNotDrawn nonce (registers c body writes ∷ calls) = IsNotDrawn nonce calls
IsNotDrawn nonce (challenges c plugin other ∷ calls) = (other ≢ nonce) × IsNotDrawn nonce calls
IsNotDrawn nonce (tokens c body ∷ calls) = IsNotDrawn nonce calls

module _ {Key Token : Type 0} (library : KeyLibrary Key) (is_loopback : Text → Option Bool)
    (jose : Jose Token) (b64decode : Text → Option Text) (utf8 : Text → Text) where
  -- The stores after a call, and after calls in turn.
  unfoldable pub answer : RouteCall → AppStores → AppStores
  answer (registers c body writes) s = (register library is_loopback c body writes s).1
  answer (challenges c plugin nonce) s = (challenge library is_loopback c plugin nonce s).1
  answer (tokens c body) s = (token library is_loopback jose b64decode utf8 c body s).1

  unfoldable pub answer_all : List RouteCall → AppStores → AppStores
  answer_all [] s = s
  answer_all (call ∷ calls) s = answer_all calls (answer call s)

  answer_all-Gone :
      (nonce : Text) (calls : List RouteCall) (s : AppStores)
      → IsNotDrawn nonce calls
      → IsGone nonce s.plugin_challenge_store
      → IsGone nonce (answer_all calls s).plugin_challenge_store
  unfolding answer_all answer
  answer_all-Gone nonce [] s d h = h
  answer_all-Gone nonce (registers c body writes ∷ calls) s d h =
      answer_all-Gone nonce calls (register library is_loopback c body writes s).1 d
        (register-Gone library is_loopback jose b64decode utf8 nonce c body writes s h)
  answer_all-Gone nonce (challenges c plugin other ∷ calls) s d h =
      answer_all-Gone nonce calls (challenge library is_loopback c plugin other s).1 d.1
        (challenge-Gone library is_loopback jose b64decode utf8 nonce c plugin other s d.0 h)
  answer_all-Gone nonce (tokens c body ∷ calls) s d h =
      answer_all-Gone nonce calls (token library is_loopback jose b64decode utf8 c body s).1 d
        (token-Gone library is_loopback jose b64decode utf8 nonce c body s h)

  consume-gone :
      (plugin nonce : Text) (now : ℕ) (store : ChallengeStore)
      → Dict.get (consume plugin nonce now store).1.pending nonce ≡ none
  unfolding consume
  consume-gone plugin nonce now store =
      get-remove store.pending nonce nonce ∙ rw (text_eq_refl nonce) refl

  refused :
      (plugin nonce : Text) (now : ℕ) (store : ChallengeStore)
      → Dict.get store.pending nonce ≡ none
      → (consume plugin nonce now store).0 ≡ ok false
  unfolding consume
  refused plugin nonce now store h = rw h refl

  proven-Gone :
      (c : Context) (body : PluginTokenRequest) (r : PluginTokenResponse Token) (s s' : AppStores)
      → token library is_loopback jose b64decode utf8 c body s ≡ (ok r, s')
      → IsGone body.nonce s'.plugin_challenge_store
  proven-Gone c body r s s' h =
      let shown = (proven library is_loopback jose b64decode utf8 c body r s s' h).1 in
      subst (IsGone body.nonce) (sym shown.used_up)
        (consume-gone body.plugin body.nonce c.now.monotonic shown.store)

  gone_fails :
      (c : Context) (body : PluginTokenRequest) (s : AppStores)
      → IsGone body.nonce s.plugin_challenge_store
      → is_ok (token library is_loopback jose b64decode utf8 c body s).0 ≡ false
  gone_fails c body s h =
      go (token library is_loopback jose b64decode utf8 c body s).0
        (token library is_loopback jose b64decode utf8 c body s).1 refl
    where
      go :
          (answer : Result RouteError (PluginTokenResponse Token)) (s' : AppStores)
          → token library is_loopback jose b64decode utf8 c body s ≡ (answer, s')
          → is_ok answer ≡ false
      go (raised e) s' t = refl
      go (ok r) s' t =
          let shown = (proven library is_loopback jose b64decode utf8 c body r s s' t).1 in
          let never =
            sym shown.accepted
            ∙ refused body.plugin body.nonce c.now.monotonic shown.store
                (subst (IsGone body.nonce) shown.challenges h) in
          absurd (ground (arith, never))

  -- A nonce buys one token: once a token was answered for it, no later request with it gets one,
  -- whatever the routes are called for in between, unless a challenge draws the same nonce again.
  pub token-answer_all :
      (c later : Context) (body again : PluginTokenRequest) (r : PluginTokenResponse Token)
      (s s' : AppStores) (calls : List RouteCall)
      → token library is_loopback jose b64decode utf8 c body s ≡ (ok r, s')
      → IsNotDrawn body.nonce calls
      → again.nonce ≡ body.nonce
      → is_ok (token library is_loopback jose b64decode utf8 later again (answer_all calls s')).0
        ≡ false
  token-answer_all c later body again r s s' calls h d same =
      gone_fails later again (answer_all calls s') (
        subst (λ n. IsGone n (answer_all calls s').plugin_challenge_store) (sym same)
          (answer_all-Gone body.nonce calls s' d (proven-Gone c body r s s' h)))
