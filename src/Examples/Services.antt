-- ===== src/Examples/Services.antt =====
-- The theorems on the threads of the cloud, its key, the health endpoint and the bootstrap script,
-- at concrete inputs.
use pqcbridge_legacy_edge_cl.Base.{
  text_eq, pos, ◌≡◌, ◌↔◌, ◌⊎◌, inl, refl, arith, true, some, none, [], ◌∷◌, ◌++◌, Text, codes,
  Eq_text,
}
use pqcbridge_legacy_edge_cl.Result.{Result, Exn, ok, err, value_error}
use pqcbridge_legacy_edge_cl.Json.{Json, Message, str}
use pqcbridge_legacy_edge_cl.Dict.{get}
use pqcbridge_legacy_edge_cl.Crypto.KeyFile.{
  KeyFile, save_mlkem_private_key, generate_mlkem_keypair,
}
use pqcbridge_legacy_edge_cl.Gateway.State.{is_established}
use pqcbridge_legacy_edge_cl.Cloud.Store.{new_store}
use pqcbridge_legacy_edge_cl.Cloud.Keypair.{load_or_generate_keypair}
use pqcbridge_legacy_edge_cl.Cloud.Main.{Args, new_cloud, start}
use pqcbridge_legacy_edge_cl.Cloud.Main.Restart.{start_again}
use pqcbridge_legacy_edge_cl.Cloud.Server.{handle_reading}
use pqcbridge_legacy_edge_cl.Cloud.Threads.{waiting, System, Reach}
use pqcbridge_legacy_edge_cl.Cloud.Threads.Once.{Once, Reach-Once}
use pqcbridge_legacy_edge_cl.Cloud.Threads.Rounds.{handle_reading-Reach}
use pqcbridge_legacy_edge_cl.Health.{health_body, do_get}
use pqcbridge_legacy_edge_cl.Health.Status.{gateway_status, readings_route}
use pqcbridge_legacy_edge_cl.Health.Answers.{gateway_status_iff, Ordinary, Replies, do_get-Replies}
use pqcbridge_legacy_edge_cl.Bootstrap.{
  Answers, Deployment, start_cloud, main, label, extract_fingerprint, search_run, starts_run,
  rsplit_last, after_last,
}
use pqcbridge_legacy_edge_cl.Json.Loads.{after_word}
use pqcbridge_legacy_edge_cl.Bootstrap.Search.{IsFingerprint, PartOf, extract_fingerprint_found}
use pqcbridge_legacy_edge_cl.Bootstrap.Pin.{IsPinned, main_provisions}
use pqcbridge_legacy_edge_cl.Examples.Toy.{toy-Laws, repeat}
use pqcbridge_legacy_edge_cl.Examples.Sample.{sample_host, sample_key, sample_gateway}
use pqcbridge_legacy_edge_cl.Examples.Clouds.{empty_cloud}
use pqcbridge_legacy_edge_cl.Examples.Sealed.{forwarded_reading}

-- Two sessions.
abbrev two_threads : System
two_threads = record {
  cloud = empty_cloud;
  threads = waiting (codes "s1") sample_key ∷ waiting (codes "s2") sample_key ∷ [];
}

abbrev after_one : System
after_one = record two_threads {
  cloud = (handle_reading sample_host (codes "s1") sample_key forwarded_reading empty_cloud).1;
}

handle_reading-Reach_example : Reach sample_host two_threads after_one
handle_reading-Reach_example =
    handle_reading-Reach sample_host (codes "s1") sample_key forwarded_reading []
      (waiting (codes "s2") sample_key ∷ []) two_threads refl

empty-Once : Once two_threads
unfolding new_store
empty-Once p = (omega arith, inl refl)

Reach-Once_example : Once after_one
Reach-Once_example =
    Reach-Once sample_host two_threads after_one
      (handle_reading-Reach sample_host (codes "s1") sample_key forwarded_reading []
        (waiting (codes "s2") sample_key ∷ []) two_threads refl)
      empty-Once

abbrev no_key : KeyFile
no_key = record { content = none; readable = true; writable = true }

abbrev kept_key : KeyFile
kept_key = record no_key { content = some sample_key }

abbrev cloud_args : Args
cloud_args = record {
  cloud_id = codes "cloud-01";
  listen_host = codes "0.0.0.0";
  listen_port = pos 5002;
  health_port = pos 8002;
  key_file = codes "cloud.key";
}

first_start :
    start sample_host cloud_args sample_key no_key
    ≡ (ok (new_cloud (codes "cloud-01") sample_key sample_key), kept_key)
unfolding start load_or_generate_keypair save_mlkem_private_key generate_mlkem_keypair
first_start = refl

start_again_example :
    start sample_host cloud_args (repeat 64 9) kept_key
    ≡ (ok (new_cloud (codes "cloud-01") sample_key sample_key), kept_key)
start_again_example =
    start_again sample_host cloud_args sample_key (repeat 64 9)
      (new_cloud (codes "cloud-01") sample_key sample_key) no_key kept_key toy-Laws refl first_start

gateway_status_iff_example :
    (get
        (health_body
          (λ e. codes "ValueError")
          (codes "gateway")
          (ok (gateway_status (λ u f n. codes "0.0") sample_gateway)))
        (codes "status")
      ≡ some (str (codes "ok")))
    ↔ (is_established sample_gateway.channel ≡ true)
gateway_status_iff_example =
    gateway_status_iff (λ e. codes "ValueError") (codes "gateway") (λ u f n. codes "0.0")
      sample_gateway

fails_in_order : Ordinary {A = Message} (err value_error)
fails_in_order e h = ground arith

no_health_route :
    (outcome : Result Json)
    → get ((codes "/readings", ok (readings_route empty_cloud)) ∷ []) (codes "/health")
      ≡ some outcome
    → Ordinary outcome
unfolding get text_eq
no_health_route outcome h = cc

-- The provider fails.
do_get-Replies_example : Replies [] (
    do_get
      (λ e. codes "ValueError")
      (codes "cloud")
      ((codes "/readings", ok (readings_route empty_cloud)) ∷ [])
      (err value_error)
      (codes "/health")
      (record { parts = []; faults = [] }))
do_get-Replies_example =
    do_get-Replies (λ e. codes "ValueError") (codes "cloud") []
      ((codes "/readings", ok (readings_route empty_cloud)) ∷ []) (err value_error)
      (codes "/health") fails_in_order no_health_route

abbrev cloud_log : Text
cloud_log = codes "INFO " ++ label ++ codes ": " ++ repeat 64 b'a' ++ codes " (pin it)"

reads_log : extract_fingerprint cloud_log ≡ ok (repeat 64 b'a')
unfolding extract_fingerprint search_run starts_run rsplit_last after_last after_word repeat
reads_log = refl

extract_fingerprint_found_example :
    IsFingerprint (repeat 64 b'a') × PartOf (repeat 64 b'a') cloud_log
extract_fingerprint_found_example = extract_fingerprint_found cloud_log (repeat 64 b'a') reads_log

-- The cloud answers at the second poll, the rest is up at once.
abbrev quick_answers : Answers
quick_answers = record {
  cloud_starts = true;
  health_polls = err Exn.os_error ∷ ok 200 ∷ [];
  cloud_logs = ok cloud_log;
  env_writable = true;
  all_start = true;
  log_polls = ok (codes "ML-KEM-768 session established") ∷ [];
  reading_polls = ok (codes "{\"stored_readings\": 1}") ∷ [];
  truncate = λ t. err value_error;
  nesting = 100;
}

abbrev bare : Deployment
bare = record { env_file = none; commands = [] }

main_provisions_example :
    ((main quick_answers bare).1.commands ≡ start_cloud ∷ [])
    ⊎ IsPinned quick_answers bare (main quick_answers bare).1
main_provisions_example = main_provisions quick_answers bare
