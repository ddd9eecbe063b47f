-- ===== src/Health/Answers.antt =====
-- What the health endpoint answers.
use pqcbridge_legacy_edge_cl.Base.{
  ℕ, ◌≡◌, ap, ◌↔◌, ◌⊎◌, inl, inr, refl, true, false, Bool, if◌then◌else◌, append_assoc, Option,
  none, some, List, [], ◌∷◌, ◌++◌, length, Bytes, Text, text_eq, text_eq_iff, Eq_text, codes,
  Bool-cases, Option-cases,
}
use pqcbridge_legacy_edge_cl.Result.{Exn, Result, ok, err, is_exception}
use pqcbridge_legacy_edge_cl.Dict.{Dict, get, put}
use pqcbridge_legacy_edge_cl.Json.{Json, str, obj, Message, of_entries}
use pqcbridge_legacy_edge_cl.Json.Spaced.{dumps_spaced}
use pqcbridge_legacy_edge_cl.Gateway.State.{Gateway, is_established}
use pqcbridge_legacy_edge_cl.Health.{
  Part, head, body, error_page, Wire, write, respond, update, health_body, serve_route, serve_other,
  do_get,
}
use pqcbridge_legacy_edge_cl.Health.Status.{gateway_status, snapshot_fields}

status_field :
    (class_name : Exn → Text) (service : Text) (print : Text → Text → ℕ → Text) (g : Gateway)
    → get (health_body class_name service (ok (gateway_status print g))) (codes "status")
      ≡ some (str (if is_established g.channel then codes "ok" else codes "degraded"))
unfolding health_body update put gateway_status snapshot_fields get text_eq
status_field class_name service print g = refl

named_ok :
    (b : Bool)
    → (◌≡◌ {A = Option Json}
        (some (str (if b then codes "ok" else codes "degraded")))
        (some (str (codes "ok"))))
      ↔ (b ≡ true)
named_ok true = (λ h. refl, λ h. refl)
named_ok false = (λ h. cc, λ h. cc)

-- The body of the health answer of the gateway has the status ok exactly when the channel to the
-- cloud is established.
pub gateway_status_iff :
    (class_name : Exn → Text) (service : Text) (print : Text → Text → ℕ → Text) (g : Gateway)
    → (get (health_body class_name service (ok (gateway_status print g))) (codes "status")
        ≡ some (str (codes "ok")))
      ↔ (is_established g.channel ≡ true)
gateway_status_iff class_name service print g =
    rw (status_field class_name service print g) (named_ok (is_established g.channel))

-- An answer: a head that announces the length of the body behind it.
abbrev answer : Bytes → List Part
answer payload = head (length payload) ∷ body payload ∷ []

-- The parts are one answer, or one error page.
abbrev pub IsReply : List Part → Type 0
IsReply parts =
    ((payload : Bytes) × (parts ≡ answer payload))
    ⊎ ((code : ℕ) × (message : Option Text) × (parts ≡ error_page code message ∷ []))

abbrev wrote_all : List Part → Result (Unit {0}) × Wire
wrote_all l = (ok tt, record { parts = l; faults = [] })

-- The connection with what was written behind what it had sent.
abbrev wrote : List Part → List Part → Result (Unit {0}) × Wire
wrote parts l = wrote_all (parts ++ l)

abbrev pub Replies : List Part → Result (Unit {0}) × Wire → Type 0
Replies parts r = (l : List Part) × (r ≡ wrote parts l) × IsReply l

-- The call returned or raised an Exception: no sys.exit and no Ctrl-C.
abbrev pub Ordinary : {A : Type 0} → Result A → Type 0
Ordinary r = (e : Exn) → r ≡ err e → is_exception e ≡ true

respond_lem :
    (payload : Bytes) (parts : List Part)
    → respond payload (record { parts = parts; faults = [] }) ≡ wrote parts (answer payload)
unfolding respond write
respond_lem payload parts =
    ap (λ (l : List Part). wrote_all l)
      (append_assoc parts (head (length payload) ∷ []) (body payload ∷ []))

module _ (class_name : Exn → Text) (service : Text) (parts : List Part) where
  serve_route-Replies :
      (outcome : Result Json)
      → Ordinary outcome
      → Replies parts
          (serve_route class_name service outcome (record { parts = parts; faults = [] }))
  unfolding serve_route write
  serve_route-Replies (ok value) fine = (
    answer (dumps_spaced value),
    rw (respond_lem (dumps_spaced value) parts),
    inl (dumps_spaced value, refl),
  )
  serve_route-Replies (err e) fine =
      rw (fine e refl)
        (error_page 500 (some (class_name e)) ∷ [], refl, inr (500, some (class_name e), refl))

  health-Replies :
      (provided : Result Message)
      → Ordinary provided
      → Replies parts (
          serve_other class_name service provided
            (codes "/health")
            (record { parts = parts; faults = [] }))
  unfolding serve_other text_eq
  health-Replies (ok fields) fine =
      let payload = dumps_spaced (obj (of_entries (health_body class_name service (ok fields)))) in
      (answer payload, respond_lem payload parts, inl (payload, refl))
  health-Replies (err e) fine =
      let payload = dumps_spaced (obj (of_entries (health_body class_name service (err e)))) in
      rw (fine e refl) (answer payload, respond_lem payload parts, inl (payload, refl))

  serve_other-Replies :
      (provided : Result Message) (path : Text)
      → Ordinary provided
      → Replies parts
          (serve_other class_name service provided path (record { parts = parts; faults = [] }))
  unfolding serve_other write
  serve_other-Replies provided path fine = elim (Bool-cases (text_eq path (codes "/health"))) [
    | inl health ↦ rw ((text_eq_iff path (codes "/health")).0 health) (health-Replies provided fine)
    | inr other ↦ rw other (_, refl, inr (404, none, refl))
  ]

  -- On a connection on which no write fails, every request is answered by one head with the length
  -- of the body behind it, or by one error page, and nothing is raised, if the provider and the
  -- route of the path return or raise an Exception.
  pub do_get-Replies :
      (routes : Dict Text (Result Json)) (provided : Result Message) (path : Text)
      → Ordinary provided
      → ((outcome : Result Json) → get routes path ≡ some outcome → Ordinary outcome)
      → Replies parts
          (do_get class_name service routes provided path (record { parts = parts; faults = [] }))
  unfolding do_get
  do_get-Replies routes provided path fine fine_routes = elim (Option-cases (get routes path)) [
    | inl absent ↦ rw (absent, do_get) (serve_other-Replies provided path fine)
    | inr (outcome, there) ↦
        rw (there, do_get) (serve_route-Replies outcome (fine_routes outcome there))
  ]
