-- ===== src/Auth/Credentials/Authenticated.antt =====
-- A request that is authenticated in the verified mode carries a verified token.
use eal_api.Prelude.{◌≡◌}
use eal_api.Prelude.Int.{ℤ}
use eal_api.Text.{Text}
use eal_api.Uuids.{Uuids}
use eal_api.Headers.{HeaderMap, HeaderText}
use eal_api.Auth.Context.{AuthContext}
use eal_api.Auth.Config.{JwtVerifier, AuthMode, jwt_mode}
use eal_api.Auth.Jwt.{Codecs}
use eal_api.Auth.Jwt.Soundness.{IsVerified}
use eal_api.Auth.Credentials.Agreement.{IsAgreed}

module _ (to_str : HeaderText) (uuids : Uuids) (codecs : Codecs) where
  -- The verifier of the mode, and a token that the request agrees on and that it accepts.
  pub record IsAuthenticated (mode : AuthMode) (cookie_name : Text) (headers : HeaderMap) (now : ℤ)
      (ctx : AuthContext) : Type 0 where
    pub verifier : JwtVerifier
    pub configured : mode ≡ jwt_mode verifier
    pub token : Text
    pub agreed : IsAgreed to_str headers cookie_name token
    pub verified : IsVerified uuids codecs verifier token now ctx
