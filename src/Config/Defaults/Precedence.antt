-- ===== src/Config/Defaults/Precedence.antt =====
-- src/config/business_defaults.go: each field with a default gets the first value that is set.
use forward_stub.Config.Defaults.Receivers.{
  complete_dds_receiver, complete_kafka_receiver, complete_receiver, inherit_dds_receiver,
  inherit_kafka_receiver, inherit_receiver, on_receiver_type, receiver_defaults,
}
use forward_stub.Config.Defaults.Senders.{
  complete_kafka_sender, complete_oss_sender, complete_sender, inherit_kafka_sender, inherit_sender,
  on_sender_type, sender_defaults,
}
use forward_stub.Config.Defaults.Settled.{
  settle_dds, settle_kafka, settle_kafka_sender, settle_oss_sender, settle_other,
  settle_other_sender, settled_dds_receiver, settled_kafka_receiver, settled_kafka_sender,
  settled_oss_sender, settled_receiver, settled_receiver_config, settled_sender,
  settled_sender_config,
}
use forward_stub.Config.Endpoint.{ReceiverConfig, SenderConfig}
use forward_stub.Config.System.{BusinessReceiverDefaultsConfig, BusinessSenderDefaultsConfig}
use forward_stub.Prelude.{Bool-cases, String, false, inl, inr, refl, true, ◌≡◌}
use forward_stub.Prelude.Eq.{eq_String, ◌==◌}
use forward_stub.Prelude.Int.{ℤ}

hit :
    (typ : String) (f : ReceiverConfig → ReceiverConfig) (r : ReceiverConfig)
    → (r.type == typ) ≡ true
    → on_receiver_type typ f r ≡ f r
unfolding on_receiver_type
hit typ f r h = rw h refl

miss :
    (typ : String) (f : ReceiverConfig → ReceiverConfig) (r : ReceiverConfig)
    → (r.type == typ) ≡ false
    → on_receiver_type typ f r ≡ r
unfolding on_receiver_type
miss typ f r h = rw h refl

hit_sender :
    (typ : String) (f : SenderConfig → SenderConfig) (s : SenderConfig)
    → (s.type == typ) ≡ true
    → on_sender_type typ f s ≡ f s
unfolding on_sender_type
hit_sender typ f s h = rw h refl

miss_sender :
    (typ : String) (f : SenderConfig → SenderConfig) (s : SenderConfig)
    → (s.type == typ) ≡ false
    → on_sender_type typ f s ≡ s
unfolding on_sender_type
miss_sender typ f s h = rw h refl

-- A text is not equal to two.
other_type : (t a b : String) → (a == b) ≡ false → (t == a) ≡ true → (t == b) ≡ false
other_type t a b e h = rw ((eq_String.beq_iff t a).0 h) e

-- What the settled values are for each type.
module _ (n p : ℤ) (d : BusinessReceiverDefaultsConfig) (r : ReceiverConfig) where
  pub kafka_config :
      (r.type == "kafka") ≡ true
      → settled_receiver_config n p d r ≡ settled_kafka_receiver d (settled_receiver n p d r)
  kafka_config k =
      let s = settled_receiver n p d r in
      rw (hit "kafka" (settled_kafka_receiver d) s k) (
        miss "dds_skydds" (settled_dds_receiver d) (settled_kafka_receiver d s)
          (other_type r.type "kafka" "dds_skydds" refl k))

  pub dds_config :
      (r.type == "kafka") ≡ false
      → (r.type == "dds_skydds") ≡ true
      → settled_receiver_config n p d r ≡ settled_dds_receiver d (settled_receiver n p d r)
  dds_config k t =
      let s = settled_receiver n p d r in
      rw (miss "kafka" (settled_kafka_receiver d) s k)
        (hit "dds_skydds" (settled_dds_receiver d) s t)

  pub other_config :
      (r.type == "kafka") ≡ false
      → (r.type == "dds_skydds") ≡ false
      → settled_receiver_config n p d r ≡ settled_receiver n p d r
  other_config k t =
      let s = settled_receiver n p d r in
      rw (miss "kafka" (settled_kafka_receiver d) s k)
        (miss "dds_skydds" (settled_dds_receiver d) s t)

module _ (d : BusinessSenderDefaultsConfig) (s : SenderConfig) where
  pub kafka_sender_config :
      (s.type == "kafka") ≡ true
      → settled_sender_config d s ≡ settled_kafka_sender d (settled_sender d s)
  kafka_sender_config k =
      let t = settled_sender d s in
      rw (miss_sender "oss" settled_oss_sender t (other_type s.type "kafka" "oss" refl k))
        (hit_sender "kafka" (settled_kafka_sender d) t k)

  pub oss_sender_config :
      (s.type == "kafka") ≡ false
      → (s.type == "oss") ≡ true
      → settled_sender_config d s ≡ settled_oss_sender (settled_sender d s)
  oss_sender_config k o =
      let t = settled_sender d s in
      rw (hit_sender "oss" settled_oss_sender t o)
        (miss_sender "kafka" (settled_kafka_sender d) (settled_oss_sender t) k)

  pub other_sender_config :
      (s.type == "kafka") ≡ false
      → (s.type == "oss") ≡ false
      → settled_sender_config d s ≡ settled_sender d s
  other_sender_config k o =
      let t = settled_sender d s in
      rw (miss_sender "oss" settled_oss_sender t o)
        (miss_sender "kafka" (settled_kafka_sender d) t k)

pub receiver_defaults_lem :
    (n p : ℤ) (d : BusinessReceiverDefaultsConfig) (r : ReceiverConfig)
    → receiver_defaults n p d r ≡ settled_receiver_config n p d r
unfolding receiver_defaults inherit_receiver inherit_kafka_receiver inherit_dds_receiver
    complete_receiver complete_kafka_receiver complete_dds_receiver
receiver_defaults_lem n p d r =
    let a = inherit_receiver d r in
    let b = inherit_kafka_receiver d a in
    let c = complete_receiver n p b in
    elim (Bool-cases (r.type == "kafka")) [
      | inl k ↦
          let no = other_type r.type "kafka" "dds_skydds" refl k in
          rw
            (
              hit "kafka" (inherit_kafka_receiver d) a k,
              miss "dds_skydds" (inherit_dds_receiver d) b no,
              hit "kafka" complete_kafka_receiver c k,
              miss "dds_skydds" complete_dds_receiver (complete_kafka_receiver c) no,
              kafka_config n p d r k,
            )
            (settle_kafka n p d r)
      | inr k ↦ elim (Bool-cases (r.type == "dds_skydds")) [
        | inl t ↦
            let b = inherit_dds_receiver d a in
            let c = complete_receiver n p b in
            rw
              (
                miss "kafka" (inherit_kafka_receiver d) a k,
                hit "dds_skydds" (inherit_dds_receiver d) a t,
                miss "kafka" complete_kafka_receiver c k,
                hit "dds_skydds" complete_dds_receiver c t,
                dds_config n p d r k t,
              )
              (settle_dds n p d r)
        | inr t ↦
            let c = complete_receiver n p a in
            rw
              (
                miss "kafka" (inherit_kafka_receiver d) a k,
                miss "dds_skydds" (inherit_dds_receiver d) a t,
                miss "kafka" complete_kafka_receiver c k,
                miss "dds_skydds" complete_dds_receiver c t,
                other_config n p d r k t,
              )
              (settle_other n p d r)
      ]
    ]

pub sender_defaults_lem :
    (d : BusinessSenderDefaultsConfig) (s : SenderConfig)
    → sender_defaults d s ≡ settled_sender_config d s
unfolding sender_defaults inherit_sender inherit_kafka_sender complete_sender complete_kafka_sender
    complete_oss_sender
sender_defaults_lem d s =
    let a = inherit_sender d s in
    elim (Bool-cases (s.type == "kafka")) [
      | inl k ↦
          let no = other_type s.type "kafka" "oss" refl k in
          let c = complete_sender (inherit_kafka_sender d a) in
          rw
            (
              hit_sender "kafka" (inherit_kafka_sender d) a k,
              miss_sender "oss" complete_oss_sender c no,
              hit_sender "kafka" complete_kafka_sender c k,
              kafka_sender_config d s k,
            )
            (settle_kafka_sender d s)
      | inr k ↦ elim (Bool-cases (s.type == "oss")) [
        | inl o ↦
            let c = complete_sender a in
            rw
              (
                miss_sender "kafka" (inherit_kafka_sender d) a k,
                hit_sender "oss" complete_oss_sender c o,
                miss_sender "kafka" complete_kafka_sender (complete_oss_sender c) k,
                oss_sender_config d s k o,
              )
              (settle_oss_sender d s)
        | inr o ↦
            let c = complete_sender a in
            rw
              (
                miss_sender "kafka" (inherit_kafka_sender d) a k,
                miss_sender "oss" complete_oss_sender c o,
                miss_sender "kafka" complete_kafka_sender c k,
                other_sender_config d s k o,
              )
              (settle_other_sender d s)
      ]
    ]
