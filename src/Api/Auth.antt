-- ===== src/Api/Auth.antt =====
-- Who may change state over the API.
use Prim.Native.String.{◌++◌}
use wiseorder.Prelude.{
  ℕ, String, true, false, Bool-cases, ◌≡◌, refl, sym, ap, ◌∙◌, Option, none, some, ◌⊎◌, inl, inr,
  ◌↔◌, eq_iff,
}
use wiseorder.Prelude.Text
use wiseorder.Prelude.Text.{str_eq, is_empty, starts_with, count}
use wiseorder.Prelude.Prefix.{starts_with-rest, starts_with-append, drop-append}
use wiseorder.Values.{Fields}
use wiseorder.Exec.{ok, err, Exn, raised, http_exception, Exec}
use wiseorder.Runtime.{World, Env}
use wiseorder.Api.{
  ApiConfig, check_bearer, require_token, guarded_by_token, decide_approval, trigger,
  run_summary_now, post_decide, post_trigger, post_run_now,
}

some_inj : {a b : String} → ◌≡◌ {A = Option String} (some a) (some b) → a ≡ b
some_inj e = cc

-- The request carries the expected token, or none is asked for.
abbrev pub Allowed : String → Option String → Type 0
Allowed expected authorization =
    (is_empty expected ≡ true)
    ⊎ ◌≡◌ {A = Option String} authorization (some ("Bearer " ++ expected))

-- The exceptions of a refusal.
abbrev pub IsRefusal : Exn → Type 0
IsRefusal e = (e.kind ≡ http_exception 401) ⊎ (e.kind ≡ http_exception 403)

module _ {R : Type 0} (expected : String) (w : World R) where
  -- The check returns where the request is allowed, and refuses it elsewhere; it changes nothing.
  data Checked (authorization : Option String) : Type 0 where
    allowed :
        Allowed expected authorization
        → require_token expected authorization w ≡ (ok tt, w)
        → Checked authorization
    refused :
        (e : Exn)
        → ¬ Allowed expected authorization
        → IsRefusal e
        → require_token expected authorization w ≡ (err e, w)
        → Checked authorization

  not_bearer :
      (header : String) → starts_with header "Bearer " ≡ false → ¬ (header ≡ "Bearer " ++ expected)
  not_bearer header h e =
      let c : starts_with header "Bearer " ≡ true =
        ap (λ s. starts_with s "Bearer ") e ∙ starts_with-append "Bearer " expected in
      let d : true ≡ false = sym c ∙ h in cc

  presented :
      (header : String)
      → starts_with header "Bearer " ≡ true
      → (Text.drop 7 header ≡ expected) ↔ (header ≡ "Bearer " ++ expected)
  presented header h =
      let (t, e) = starts_with-rest header "Bearer " h in
      (
        λ p. e ∙ ap (λ s. "Bearer " ++ s) (sym (ap (Text.drop 7) e ∙ drop-append "Bearer " t) ∙ p),
        λ p. ap (Text.drop 7) p ∙ drop-append "Bearer " expected,
      )

  header_Checked : is_empty expected ≡ false → (header : String) → Checked (some header)
  unfolding require_token check_bearer
  header_Checked p header = elim (Bool-cases (starts_with header "Bearer ")) [
    | inr q ↦
        refused (raised (http_exception 401) "Bearer token required")
          (λ a. elim a [
            | inl b ↦ (let d : true ≡ false = sym b ∙ p in cc)
            | inr b ↦ not_bearer header q (some_inj b)
          ])
          (inl refl) (rw (p, q))
    | inl q ↦ elim (Bool-cases (str_eq (Text.drop 7 header) expected)) [
      | inl r ↦
          allowed
            (inr (ap some ((presented header q).0 ((eq_iff (Text.drop 7 header) expected).0 r))))
            (rw (p, q, r))
      | inr r ↦
          refused (raised (http_exception 403) "invalid token")
            (λ a. elim a [
              | inl b ↦ (let d : true ≡ false = sym b ∙ p in cc)
              | inr b ↦
                  let same =
                    (eq_iff (Text.drop 7 header) expected).1
                      ((presented header q).1 (some_inj b)) in
                  (let d : true ≡ false = sym same ∙ r in cc)
            ])
            (inr refl) (rw (p, q, r))
    ]
  ]

  require_token-Checked : (authorization : Option String) → Checked authorization
  unfolding require_token check_bearer
  require_token-Checked authorization = elim (Bool-cases (is_empty expected)) [
    | inl p ↦ allowed (inl p) (rw p)
    | inr p ↦ by_header p authorization
  ]
    where
      by_header : is_empty expected ≡ false → (o : Option String) → Checked o
      by_header p (some header) = header_Checked p header
      by_header p none =
          refused (raised (http_exception 401) "Bearer token required")
            (λ a. elim a [ inl b ↦ (let d : true ≡ false = sym b ∙ p in cc) | inr b ↦ cc ])
            (inl refl) (rw p)

module _ {R : Type 0} (env : Env R) (config : ApiConfig) (authorization : Option String)
    (w : World R) where
  -- What a guarded request does to the state w: it is its handler, or it is refused and nothing changes.
  abbrev pub Guarded : {A : Type 0} → Exec (World R) A → Exec (World R) A → Type 0
  Guarded request handler =
      (Allowed config.api_auth_token authorization × (request w ≡ handler w))
      ⊎ ((¬ Allowed config.api_auth_token authorization)
          × ((e : Exn) × (IsRefusal e × (request w ≡ (err e, w)))))

  guarded_by_token-Guarded :
      {A : Type 0} (handler : Exec (World R) A)
      → Guarded (guarded_by_token env config authorization handler) handler
  unfolding guarded_by_token
  guarded_by_token-Guarded handler =
      elim (require_token-Checked config.api_auth_token w authorization) [
        | allowed a p ↦ inl (a, rw p)
        | refused e a r p ↦ inr (a, (e, (r, rw p)))
      ]

  -- A request that decides an approval, triggers a job or runs the summary does just what its handler
  -- does where no token is set or the header is "Bearer " and the token; in every other case it is
  -- refused with 401 or 403 and nothing of the state changes.
  pub posts-Guarded :
      (approval_id : ℕ) (decision type : String) (payload : Fields)
      → Guarded
          (post_decide env config authorization approval_id decision)
          (decide_approval env config approval_id decision)
        × Guarded
            (post_trigger env config authorization type payload)
            (trigger env config type payload)
        × Guarded (post_run_now env config authorization) (run_summary_now env config)
  posts-Guarded approval_id decision type payload = (
    guarded_by_token-Guarded (decide_approval env config approval_id decision),
    guarded_by_token-Guarded (trigger env config type payload),
    guarded_by_token-Guarded (run_summary_now env config),
  )
