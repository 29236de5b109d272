-- ===== src/Config/Examples.antt =====
-- src/config: the theorems on the defaults and the checks at small configurations.
-- The results of the functions of Go's packages for the texts of `udp_config`.
use forward_stub.Compiler.{compile_pipelines}
use forward_stub.Compiler.Examples.{no_regexp}
use forward_stub.Compiler.Validated.{accepts}
use forward_stub.Config.Business.{SelectorConfig}
use forward_stub.Config.Defaults.Again.{apply_defaults-again}
use forward_stub.Config.Endpoint.{ReceiverConfig, SenderConfig}
use forward_stub.Config.Samples.{some_defaults, udp_config, udp_receiver, udp_sender}
use forward_stub.Config.Snapshot.{apply_defaults}
use forward_stub.Config.Stage.{StageConfig}
use forward_stub.Config.Topology.{
  check_stage, missing, validate_match, validate_selector, validate_task, validate_task_set,
  validate_topology,
}
use forward_stub.Config.Validate.{
  Parsers, strip_addr_scheme, validate_host_port, validate_logging_config,
}
use forward_stub.Config.Validate.Accepted.{accepted_lem, business_of}
use forward_stub.Config.Validate.Keys.{key_compiles}
use forward_stub.Config.Validate.Power.{
  validate_sender_concurrency, validate_sender_concurrency_lem,
}
use forward_stub.Config.Validate.Receivers.{
  match_key_modes, validate_net_receiver, validate_receiver, validate_receiver_match_key,
  validate_receiver_type,
}
use forward_stub.Config.Validate.Senders.{
  validate_notify_on_success, validate_sender, validate_sender_type, validate_udp_sender,
}
use forward_stub.Config.Validate.Whole.{validate, validate_maps, validate_pipeline, validate_stages}
use forward_stub.Pipeline.{Pipeline}
use forward_stub.Prelude.{
  All, List, String, [], arith, false, none, ok, refl, some, true, ℕ, ◌^◌, ◌↔◌, ◌∷◌, ◌≡◌, ◌⊎◌,
}
use forward_stub.Prelude.Int.{is_nonpos, pos}
use forward_stub.Prelude.Map.{Map}
use forward_stub.Stdlib.Strings.{after_prefix, trim_space}

abbrev parsers : Parsers
parsers = record {
  parse_duration = λ s. none;
  split_host_port = λ s. some ("10.0.0.2", "9000");
  is_ip = λ s. true;
  decode_base64 = λ s. none;
  regexp_ok = accepts no_regexp;
  to_lower = λ s. s;
}

udp_config-accepted : validate parsers udp_config ≡ ok tt
unfolding validate validate_maps validate_logging_config validate_pipeline validate_stages
    validate_task validate_task_set validate_selector validate_match check_stage validate_receiver
    validate_receiver_type validate_net_receiver validate_receiver_match_key match_key_modes
    validate_sender validate_sender_type validate_sender_concurrency validate_notify_on_success
    validate_udp_sender validate_host_port strip_addr_scheme trim_space after_prefix
udp_config-accepted = refl

abbrev receivers : Map String ReceiverConfig
receivers = ("in", udp_receiver) ∷ []

abbrev selectors : Map String SelectorConfig
selectors = ("sel", record { matches = []; default_task_set = "set" }) ∷ []

abbrev task_sets : Map String (List String)
task_sets = ("set", "t" ∷ []) ∷ []

abbrev senders : Map String SenderConfig
senders = ("out", udp_sender) ∷ []

abbrev pipelines : Map String (List StageConfig)
pipelines = ("p", []) ∷ []

accepted_lem_example :
    (validate_topology
        (business_of receivers selectors task_sets senders pipelines udp_config.tasks)
      ≡ ok tt)
    × ((ps : Map String Pipeline) × (compile_pipelines no_regexp pipelines ≡ ok ps))
    × All
        (λ ((rn, r) : String × ReceiverConfig).
          (missing r.selector selectors ≡ false) × (key_compiles (λ n. "0") (λ s. none) r ≡ true))
        receivers
accepted_lem_example =
    accepted_lem parsers udp_config receivers selectors task_sets senders pipelines no_regexp
      (λ n. "0") (λ s. none) refl refl refl refl refl refl udp_config-accepted

apply_defaults-again_example :
    apply_defaults (pos 4) some_defaults (apply_defaults (pos 4) some_defaults udp_config)
    ≡ apply_defaults (pos 4) some_defaults udp_config
apply_defaults-again_example = apply_defaults-again (pos 4) some_defaults udp_config

validate_sender_concurrency_lem_example :
    (validate_sender_concurrency "out" (pos 8) ≡ ok tt)
    ↔ ((is_nonpos (pos 8) ≡ true) ⊎ ((k : ℕ) × (pos 8 ≡ pos (2 ^ k))))
validate_sender_concurrency_lem_example =
    validate_sender_concurrency_lem "out" (pos 8) (omega arith)
