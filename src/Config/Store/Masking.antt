-- ===== src/Config/Store/Masking.antt =====
-- A client that reads the configuration and writes it back: `redact_config` and
-- `merge_config_update` of src/msgate/config/store.py.
use msgate.Prelude.{
  Option, none, some, [], ◌∷◌, ◌≡◌, refl, ap, sym, ◌∙◌, ◌⊎◌, inl, inr, Text, if◌then◌else◌,
  Bool-cases,
}
use msgate.Prelude.Results.{ok}
use msgate.Prelude.Texts.{strip, is_empty, is_empty_nil}
use msgate.Config.{EwsConfig, GraphConfig, GatewayConfig}
use msgate.Config.Validation.{
  GraphDict, dump_graph, model_dump, Pydantic, blank_to_none, model_validate,
}
use msgate.Config.Validation.Models.{NotBlank, ValidOption, Valid, model_validate-Valid}
use msgate.Config.Store.{
  change_given, change_password, change_secret, change_secrets, mask, masked, redact_config,
  keep_secret, keep_password, keep_client_secret, merge_dicts, merge_config_update,
}
use mathlib.Core.Option

abbrev masked_graph : GraphConfig → GraphConfig
masked_graph g = record g {
  client_secret = if is_empty g.client_secret then g.client_secret else mask;
}

-- The configuration that a client sees.
abbrev pub seen : GatewayConfig → GatewayConfig
seen c = record c {
  ews = Option.map (change_password masked) c.ews;
  ews_failover = Option.map (change_password masked) c.ews_failover;
  graph = Option.map masked_graph c.graph;
}

seen_graph :
    (g : Option GraphConfig)
    → Option.map (change_secret masked) (Option.map dump_graph g)
      ≡ Option.map dump_graph (Option.map masked_graph g)
seen_graph none = refl
seen_graph (some g) = elim (Bool-cases (is_empty g.client_secret)) [
  | inl e ↦ rw e refl
  | inr e ↦ rw e refl
]

kept : (secret : Option Text) → keep_secret secret (change_given masked secret) ≡ secret
kept none = refl
kept (some t) = elim (Bool-cases (is_empty t)) [ inl e ↦ rw e (rw e refl) | inr e ↦ rw e refl ]

mask-NotBlank : NotBlank (some mask)
unfolding blank_to_none strip
mask-NotBlank = refl

masked-NotBlank : (secret : Option Text) → NotBlank secret → NotBlank (change_given masked secret)
masked-NotBlank none h = h
masked-NotBlank (some t) h = elim (Bool-cases (is_empty t)) [
  | inl e ↦ rw e h
  | inr e ↦ rw e mask-NotBlank
]

ews_kept :
    (e : Option EwsConfig)
    → Option.map (keep_password e) (Option.map (change_password masked) e) ≡ e
ews_kept none = refl
ews_kept (some e) = ap (λ p. some (record e { password = p })) (kept e.password)

graph_merged :
    (g : Option GraphDict)
    → Option.map (keep_client_secret g) (Option.map (change_secret masked) g) ≡ g
graph_merged none = refl
graph_merged (some g) = ap (λ p. some (record g { client_secret = p })) (kept g.client_secret)

-- A secret that tells nothing: none, a blank or the mask.
abbrev pub Hidden : Option Text → Type 0
Hidden none = Unit
Hidden (some t) = (t ≡ []) ⊎ (t ≡ mask)

abbrev pub HiddenEws : Option EwsConfig → Type 0
HiddenEws none = Unit
HiddenEws (some e) = Hidden e.password

abbrev pub HiddenGraph : Option GraphConfig → Type 0
HiddenGraph none = Unit
HiddenGraph (some g) = Hidden (some g.client_secret)

Hidden-secret : (secret : Option Text) → Hidden (change_given masked secret)
Hidden-secret none = tt
Hidden-secret (some []) = inl refl
Hidden-secret (some (c ∷ t)) = inr refl

hidden_ews : (e : Option EwsConfig) → HiddenEws (Option.map (change_password masked) e)
hidden_ews none = tt
hidden_ews (some e) = Hidden-secret e.password

hidden_graph : (g : Option GraphConfig) → HiddenGraph (Option.map masked_graph g)
hidden_graph none = tt
hidden_graph (some g) = elim (Bool-cases (is_empty g.client_secret)) [
  | inl e ↦ rw e (inl (is_empty_nil g.client_secret e))
  | inr e ↦ rw e (inr refl)
]

module _ (lib : Pydantic) where
  masked-ValidOption :
      (e : Option EwsConfig)
      → ValidOption lib e
      → ValidOption lib (Option.map (change_password masked) e)
  masked-ValidOption none v = v
  masked-ValidOption (some e) v = record {
    url = v.url;
    domain = v.domain;
    username = v.username;
    password = masked-NotBlank e.password v.password;
    ca_file = v.ca_file;
    primary_smtp = v.primary_smtp;
  }

  seen-Valid : (c : GatewayConfig) → Valid lib c → Valid lib (seen c)
  seen-Valid c v = record {
    smtp = v.smtp;
    ews = masked-ValidOption c.ews v.ews;
    ews_failover = masked-ValidOption c.ews_failover v.ews_failover;
    default_sender = v.default_sender;
  }

  masked_dump :
      (c : GatewayConfig) → change_secrets masked masked masked (model_dump c) ≡ model_dump (seen c)
  unfolding model_dump
  masked_dump c = λ i. record (model_dump (seen c)) { graph = seen_graph c.graph i }

  redact_config_lem : (c : GatewayConfig) → Valid lib c → redact_config lib c ≡ ok (seen c)
  unfolding redact_config
  redact_config_lem c v =
      ap (model_validate lib) (masked_dump c) ∙ model_validate-Valid lib (seen c) (seen-Valid c v)

  merge_dicts-seen :
      (c : GatewayConfig) → merge_dicts (model_dump c) (model_dump (seen c)) ≡ model_dump c
  unfolding merge_dicts model_dump
  merge_dicts-seen c = λ i. record (model_dump c) {
    ews = ews_kept c.ews i;
    ews_failover = ews_kept c.ews_failover i;
    graph =
        (ap (Option.map (keep_client_secret (Option.map dump_graph c.graph)))
              (sym (seen_graph c.graph))
            ∙ graph_merged (Option.map dump_graph c.graph))
          i;
  }

  -- What a client reads of a valid configuration shows none of its secrets, and writing it back
  -- changes nothing: the masked secrets are replaced by those that the gateway has.
  pub merge_config_update-redact_config :
      (c : GatewayConfig)
      → Valid lib c
      → (c' : GatewayConfig) × (redact_config lib c ≡ ok c')
        × (merge_config_update lib c c' ≡ ok c)
        × HiddenEws c'.ews
        × HiddenEws c'.ews_failover
        × HiddenGraph c'.graph
  unfolding merge_config_update
  merge_config_update-redact_config c v = (
    seen c,
    redact_config_lem c v,
    ap (model_validate lib) (merge_dicts-seen c) ∙ model_validate-Valid lib c v,
    hidden_ews c.ews,
    hidden_ews c.ews_failover,
    hidden_graph c.graph,
  )
