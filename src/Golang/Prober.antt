-- ===== src/Golang/Prober.antt =====
-- The network daemon's checks: pkg/netcheck/netcheck.go and internal/prober/prober.go, with the
-- collectors of internal/prober/metrics.go.
use auto_sre.Prelude.{
  ℕ, Bool, false, not, ◌&&◌, Option, none, some, List, [], ◌∷◌, ◌++◌, leb, if◌then◌else◌,
}
use auto_sre.Prelude.Text.{String, str_eq}
use auto_sre.Prelude.Int.{ℤ, pos, ltb_ℤ}

-- `Result`; `E` are the errors of the standard library.
pub data Failure (E : Type 0) : Type 0 where
  raised : E → Failure E
  unhealthy_status : ℕ → Failure E

pub record Result (E : Type 0) : Type 0 where
  pub latency : ℕ
  pub timed_out : Bool
  pub err : Option (Failure E)

-- `config.Target`; a text that is not set is "".
pub record Target : Type 0 where
  pub name : String
  pub host : String
  pub port : ℤ
  pub http : String

-- How an HTTP check goes: the request cannot be made, it fails, or an answer has a status.
pub data HttpOutcome (E : Type 0) : Type 0 where
  not_made : E → HttpOutcome E
  failed : E → HttpOutcome E
  answered : ℕ → HttpOutcome E

-- A counter by its labels, and a histogram's observations by theirs, in order.
abbrev pub Counted : Type 0
Counted = List (String × String)

-- `Metrics`
pub record Metrics : Type 0 where
  pub latency : List ((String × String) × ℕ)
  pub requests : Counted
  pub failures : Counted
  pub dns_lookup : List (String × ℕ)
  pub tcp_connections : List String
  pub timeouts : Counted

abbrev pub new_metrics : Metrics
new_metrics = record {
  latency = [];
  requests = [];
  failures = [];
  dns_lookup = [];
  tcp_connections = [];
  timeouts = [];
}

-- `is_timeout` is `isTimeout` on an error, which asks `net.Error` and the two deadline errors.
module _ {E : Type 0} (is_timeout : E → Bool) where
  -- `newResult`
  unfoldable pub new_result : ℕ → Option E → Result E
  new_result latency none = record { latency = latency; timed_out = false; err = none }
  new_result latency (some e) = record {
    latency = latency;
    timed_out = is_timeout e;
    err = some (raised e);
  }

  -- `HTTPCheck`
  unfoldable pub http_check : ℕ → HttpOutcome E → Result E × ℕ
  http_check latency (not_made e) =
      (record { latency = latency; timed_out = false; err = some (raised e) }, 0)
  http_check latency (failed e) = (new_result latency (some e), 0)
  http_check latency (answered status) =
      let res = new_result latency none in
      (if leb 400 status then record res { err = some (unhealthy_status status) } else res, status)

  -- `record` of the prober.
  unfoldable pub count_result : String → String → Result E → Metrics → Metrics
  count_result target check r m =
      let labels : String × String = (target, check) in
      record m {
        requests = m.requests ++ labels ∷ [];
        latency = m.latency ++ (labels, r.latency) ∷ [];
        timeouts = if r.timed_out then m.timeouts ++ labels ∷ [] else m.timeouts;
        failures = elim r.err [ none ↦ m.failures | some e ↦ m.failures ++ labels ∷ [] ];
      }

  -- What the network does to the three checks of a target: the latency of each and how it goes.
  pub record Probe : Type 0 where
    pub target : Target
    pub dns : ℕ × Option E
    pub tcp : ℕ × Option E
    pub http : ℕ × HttpOutcome E

  unfoldable pub probe_dns : Probe → Metrics → Metrics
  probe_dns p m =
      let r = new_result p.dns.0 p.dns.1 in
      let counted = count_result p.target.name "dns" r m in
      if not (str_eq p.target.host "")
      then record counted { dns_lookup = counted.dns_lookup ++ (p.target.name, r.latency) ∷ [] }
      else m

  unfoldable pub probe_tcp : Probe → Metrics → Metrics
  probe_tcp p m =
      let r = new_result p.tcp.0 p.tcp.1 in
      let tried = record m { tcp_connections = m.tcp_connections ++ p.target.name ∷ [] } in
      if not (str_eq p.target.host "") && ltb_ℤ (pos 0) p.target.port
      then count_result p.target.name "tcp" r tried
      else m

  unfoldable pub probe_http : Probe → Metrics → Metrics
  probe_http p m =
      if not (str_eq p.target.http "")
      then count_result p.target.name "http" (http_check p.http.0 p.http.1).0 m
      else m

  -- `probeTarget`
  unfoldable pub probe_target : Probe → Metrics → Metrics
  unfolding probe_dns probe_tcp probe_http
  probe_target p m = probe_http p (probe_tcp p (probe_dns p m))

  -- `probeAll`, and `Run`: one round at once and one on each tick until the context is done.
  unfoldable pub probe_all : List Probe → Metrics → Metrics
  probe_all [] m = m
  probe_all (p ∷ probes) m = probe_all probes (probe_target p m)

  unfoldable pub run : List (List Probe) → Metrics → Metrics
  run [] m = m
  run (probes ∷ ticks) m = run ticks (probe_all probes m)
