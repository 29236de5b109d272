-- ===== src/Config/Defaults/Again.antt =====
-- src/config/business_defaults.go: applying the defaults a second time changes nothing.
use forward_stub.Config.Business.{TaskConfig}
use forward_stub.Config.Defaults.{control_defaults, logging_defaults, task_defaults}
use forward_stub.Config.Defaults.First.{
  first_int-again, first_int-twice, first_some-again, first_text, first_text-again, or_int-twice,
  or_nonzero-twice, or_option-twice, or_text-twice,
}
use forward_stub.Config.Defaults.Precedence.{
  dds_config, kafka_config, kafka_sender_config, oss_sender_config, other_config,
  other_sender_config, receiver_defaults_lem, sender_defaults_lem,
}
use forward_stub.Config.Defaults.Receivers.{receiver_defaults}
use forward_stub.Config.Defaults.Senders.{sender_defaults}
use forward_stub.Config.Defaults.Settled.{
  settle_task, settled_dds_receiver, settled_kafka_receiver, settled_kafka_sender,
  settled_oss_sender, settled_receiver, settled_receiver_config, settled_sender,
  settled_sender_config, settled_task,
}
use forward_stub.Config.Endpoint.{ReceiverConfig, SenderConfig}
use forward_stub.Config.Snapshot.{Config, apply_defaults, map_values}
use forward_stub.Config.System.{
  BusinessDefaultsConfig, BusinessReceiverDefaultsConfig, BusinessSenderDefaultsConfig,
  BusinessTaskDefaultsConfig, ControlConfig, LoggingConfig,
}
use forward_stub.Prelude.{
  Bool, Bool-cases, Option, String, [], false, if◌then◌else◌, inl, inr, none, refl, some, true, ◌∙◌,
  ◌∷◌, ◌≡◌,
}
use forward_stub.Prelude.Eq.{eq_String, ◌==◌}
use forward_stub.Prelude.Int.{ℤ}
use forward_stub.Prelude.Map.{Map, map_option}

ruleset again = (first_text-again, first_int-again, first_some-again)

ruleset twice = (or_text-twice, or_int-twice, or_nonzero-twice, or_option-twice)

task-again :
    (p : ℤ) (d : BusinessTaskDefaultsConfig) (t : TaskConfig)
    → task_defaults p d (task_defaults p d t) ≡ task_defaults p d t
task-again p d t = rw (settle_task p d t, settle_task p d (settled_task p d t)) (simp again)

interval-again :
    (b : Bool) (v d c : String)
    → (if b
        then first_text ((if b then first_text (v ∷ d ∷ []) c else v) ∷ d ∷ []) c
        else (if b then first_text (v ∷ d ∷ []) c else v))
      ≡ (if b then first_text (v ∷ d ∷ []) c else v)
interval-again true v d c = first_text-again v d c
interval-again false v d c = refl

module _ (n p : ℤ) (d : BusinessReceiverDefaultsConfig) where
  kafka-again :
      (r : ReceiverConfig)
      → settled_kafka_receiver d
          (settled_receiver n p d (settled_kafka_receiver d (settled_receiver n p d r)))
        ≡ settled_kafka_receiver d (settled_receiver n p d r)
  kafka-again r = simp (again, interval-again)

  dds-again :
      (r : ReceiverConfig)
      → settled_dds_receiver d
          (settled_receiver n p d (settled_dds_receiver d (settled_receiver n p d r)))
        ≡ settled_dds_receiver d (settled_receiver n p d r)
  dds-again r = simp again

  other-again :
      (r : ReceiverConfig)
      → settled_receiver n p d (settled_receiver n p d r) ≡ settled_receiver n p d r
  other-again r = simp again

  receiver_config-again :
      (r : ReceiverConfig)
      → settled_receiver_config n p d (settled_receiver_config n p d r)
        ≡ settled_receiver_config n p d r
  receiver_config-again r = elim (Bool-cases (r.type == "kafka")) [
    | inl k ↦
        rw (kafka_config n p d r k) (
          kafka_config n p d (settled_kafka_receiver d (settled_receiver n p d r)) k
          ∙ kafka-again r)
    | inr k ↦ elim (Bool-cases (r.type == "dds_skydds")) [
      | inl t ↦
          rw (dds_config n p d r k t)
            (dds_config n p d (settled_dds_receiver d (settled_receiver n p d r)) k t ∙ dds-again r)
      | inr t ↦
          rw (other_config n p d r k t)
            (other_config n p d (settled_receiver n p d r) k t ∙ other-again r)
    ]
  ]

  receiver-again :
      (r : ReceiverConfig)
      → receiver_defaults n p d (receiver_defaults n p d r) ≡ receiver_defaults n p d r
  receiver-again r =
      rw (receiver_defaults_lem n p d r)
        (receiver_defaults_lem n p d (settled_receiver_config n p d r) ∙ receiver_config-again r)

module _ (d : BusinessSenderDefaultsConfig) where
  kafka_sender-again :
      (s : SenderConfig)
      → settled_kafka_sender d (settled_sender d (settled_kafka_sender d (settled_sender d s)))
        ≡ settled_kafka_sender d (settled_sender d s)
  kafka_sender-again s = simp again

  oss_sender-again :
      (s : SenderConfig)
      → settled_oss_sender (settled_sender d (settled_oss_sender (settled_sender d s)))
        ≡ settled_oss_sender (settled_sender d s)
  oss_sender-again s = simp (again, first_int-twice)

  other_sender-again :
      (s : SenderConfig) → settled_sender d (settled_sender d s) ≡ settled_sender d s
  other_sender-again s = simp again

  sender_config-again :
      (s : SenderConfig)
      → settled_sender_config d (settled_sender_config d s) ≡ settled_sender_config d s
  sender_config-again s = elim (Bool-cases (s.type == "kafka")) [
    | inl k ↦ rw (kafka_sender_config d s k) (
        kafka_sender_config d (settled_kafka_sender d (settled_sender d s)) k
        ∙ kafka_sender-again s)
    | inr k ↦ elim (Bool-cases (s.type == "oss")) [
      | inl t ↦
          rw (oss_sender_config d s k t)
            (oss_sender_config d (settled_oss_sender (settled_sender d s)) k t ∙ oss_sender-again s)
      | inr t ↦
          rw (other_sender_config d s k t)
            (other_sender_config d (settled_sender d s) k t ∙ other_sender-again s)
    ]
  ]

  sender-again : (s : SenderConfig) → sender_defaults d (sender_defaults d s) ≡ sender_defaults d s
  sender-again s =
      rw (sender_defaults_lem d s)
        (sender_defaults_lem d (settled_sender_config d s) ∙ sender_config-again s)

control-again : (c : ControlConfig) → control_defaults (control_defaults c) ≡ control_defaults c
unfolding control_defaults
control-again c = simp twice

logging-again : (l : LoggingConfig) → logging_defaults (logging_defaults l) ≡ logging_defaults l
unfolding logging_defaults
logging-again l = simp twice

map_values-again :
    {V : Type 0} (f : V → V) (m : Map String V)
    → ((v : V) → f (f v) ≡ f v)
    → map_values f (map_values f m) ≡ map_values f m
map_values-again f [] h = refl
map_values-again f ((name, v) ∷ m) h = rw (h v, map_values-again f m h) refl

map_option-again :
    {V : Type 0} (f : V → V) (o : Option V)
    → ((v : V) → f (f v) ≡ f v)
    → map_option f (map_option f o) ≡ map_option f o
map_option-again f none h = refl
map_option-again f (some v) h = rw (h v) refl

-- Applying the defaults a second time, with the same number of CPUs and the same system defaults, changes nothing.
pub apply_defaults-again :
    (num_cpu : ℤ) (d : BusinessDefaultsConfig) (c : Config)
    → apply_defaults num_cpu d (apply_defaults num_cpu d c) ≡ apply_defaults num_cpu d c
unfolding apply_defaults
apply_defaults-again n d c =
    let p = (logging_defaults c.logging).payload_log_max_bytes in
    rw (control-again c.control, logging-again c.logging)
      (rw
        (
          map_values-again (task_defaults p d.task) c.tasks (task-again p d.task),
          map_option-again (map_values (receiver_defaults n p d.receiver)) c.receivers (λ m.
              map_values-again (receiver_defaults n p d.receiver) m
                (receiver-again n p d.receiver)),
          map_option-again (map_values (sender_defaults d.sender)) c.senders
              (λ m. map_values-again (sender_defaults d.sender) m (sender-again d.sender)),
        )
        refl)
