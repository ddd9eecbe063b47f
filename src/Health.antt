-- ===== src/Health.antt =====
-- common/health.py: the handler of the health endpoint. The calls of the provider and of the routes
-- enter as their outcomes, and the name of an exception's class as a function.
pub mod Status
pub mod Answers
use pqcbridge_legacy_edge_cl.Base.{
  ℕ, Bool, true, false, Option, none, some, List, [], ◌∷◌, ◌++◌, if◌then◌else◌, length, Bytes, Text,
  text_eq, Eq_text, codes,
}
use pqcbridge_legacy_edge_cl.Result.{Exn, Result, ok, err, os_error, is_exception}
use pqcbridge_legacy_edge_cl.Exec.{Exec, pure, raise, lift, recover, continue, catch, ◌>>=◌, ◌>>◌}
use pqcbridge_legacy_edge_cl.Dict.{Dict, get, put}
use pqcbridge_legacy_edge_cl.Json.{Json, str, obj, Message, of_entries}
use pqcbridge_legacy_edge_cl.Json.Spaced.{dumps_spaced}

-- What the handler writes: the head of an answer of status 200 with the length of its body, the
-- body, or the error page of `send_error`.
pub data Part : Type 0 where
  head : ℕ → Part
  body : Bytes → Part
  error_page : ℕ → Option Text → Part

-- The connection: what was written, and which of the next writes fail.
pub record Wire : Type 0 where
  pub parts : List Part
  pub faults : List Bool

write_with : List Bool → Part → Exec Wire (Unit {0})
write_with [] part w = (ok tt, record w { parts = w.parts ++ part ∷ [] })
write_with (true ∷ later) part w = (err os_error, record w { faults = later })
write_with (false ∷ later) part w = (ok tt, record { parts = w.parts ++ part ∷ []; faults = later })

unfoldable pub write : Part → Exec Wire (Unit {0})
unfolding write_with
write part w = write_with w.faults part w

-- `_respond`: the headers are flushed before the payload is written
unfoldable pub respond : Bytes → Exec Wire (Unit {0})
respond payload = do write (head (length payload)); write (body payload)

-- d.update(other)
unfoldable pub update : Message → Message → Message
update d [] = d
update d ((k, v) ∷ other) = update (put d k v) other

module _ (class_name : Exn → Text) (service : Text) where
  unfoldable pub health_body : Result Message → Message
  unfolding update
  health_body (ok fields) =
      update ((codes "status", str (codes "ok")) ∷ (codes "service", str service) ∷ []) fields
  health_body (err e) =
      (codes "status", str (codes "degraded"))
      ∷ (codes "service", str service)
      ∷ (codes "error", str (class_name e))
      ∷ []

  serve_route : Result Json → Exec Wire (Unit {0})
  serve_route outcome =
      catch (do value ← lift outcome; respond (dumps_spaced value))
        (λ e. if is_exception e then write (error_page 500 (some (class_name e))) else raise e)

  -- except Exception
  abbrev caught : Result Message → Exec Wire (Result Message)
  caught (ok fields) = pure (ok fields)
  caught (err e) = if is_exception e then pure (err e) else raise e

  serve_other : Result Message → Text → Exec Wire (Unit {0})
  serve_other provided path =
      if text_eq path (codes "/health")
      then (do
        outcome ← caught provided
        respond (dumps_spaced (obj (of_entries (health_body outcome)))))
      else write (error_page 404 none)

  unfoldable pub do_get : Dict Text (Result Json) → Result Message → Text → Exec Wire (Unit {0})
  unfolding serve_route serve_other
  do_get routes provided path = elim (get routes path) [
    | some outcome ↦ serve_route outcome
    | none ↦ serve_other provided path
  ]
