-- ===== src/Golang/Probes.antt =====
-- What the metrics of the network daemon say of its checks.
use auto_sre.Prelude.{◌≡◌, refl, Bool, not, ◌&&◌, List, [], ◌∷◌, arith, Bool-cases, inl, inr}
use auto_sre.Prelude.Int.{pos, ltb_ℤ}
use auto_sre.Prelude.Text.{String, str_eq}
use auto_sre.Golang.Prober.{
  Metrics, new_metrics, new_result, http_check, count_result, Probe, probe_dns, probe_tcp,
  probe_http, probe_target, probe_all, run,
}
use auto_sre.Golang.Counts.{
  count, count_name, observations, count_name-append, observations-append, other_check, same_check,
}
use auto_sre.Golang.Results.{InOrder, new_result-IsSound, http_check-IsSound, count_result-InOrder}

-- What the metrics show is possible: of each check of each target no more time out than fail, and no
-- more fail than are made; each TCP check is one connection, and each DNS check one observation.
pub record IsConsistent (m : Metrics) : Type 0 where
  pub in_order : (target check : String) → InOrder target check m
  pub connections_made :
      (target : String) → count_name target m.tcp_connections ≡ count target "tcp" m.requests
  pub lookups_made :
      (target : String) → observations target m.dns_lookup ≡ count target "dns" m.requests

module _ {E : Type 0} (is_timeout : E → Bool) where
  probe_dns-IsConsistent :
      (p : Probe is_timeout) (m : Metrics)
      → IsConsistent m
      → IsConsistent (probe_dns is_timeout p m)
  unfolding probe_dns count_result
  probe_dns-IsConsistent p m h = elim (Bool-cases (not (str_eq p.target.host ""))) [
    | inr skipped ↦ rw skipped h
    | inl named ↦
        let r = new_result is_timeout p.dns.0 p.dns.1 in
        let sound = new_result-IsSound is_timeout p.dns.0 p.dns.1 in
        let name = p.target.name in
        rw named (record {
          in_order = λ target check.
              count_result-InOrder is_timeout target check name "dns" r m sound
                (h.in_order target check);
          connections_made = λ target. omega (
            arith,
            h.connections_made target,
            other_check target name "dns" "tcp" m.requests refl,
          );
          lookups_made = λ target. omega (
            arith,
            h.lookups_made target,
            same_check target name "dns" m.requests refl,
            observations-append target name r.latency m.dns_lookup,
          );
        })
  ]

  probe_tcp-IsConsistent :
      (p : Probe is_timeout) (m : Metrics)
      → IsConsistent m
      → IsConsistent (probe_tcp is_timeout p m)
  unfolding probe_tcp count_result
  probe_tcp-IsConsistent p m h =
      elim (Bool-cases (not (str_eq p.target.host "") && ltb_ℤ (pos 0) p.target.port)) [
        | inr skipped ↦ rw skipped h
        | inl reachable ↦
            let r = new_result is_timeout p.tcp.0 p.tcp.1 in
            let sound = new_result-IsSound is_timeout p.tcp.0 p.tcp.1 in
            let name = p.target.name in
            rw reachable (record {
              in_order = λ target check.
                  count_result-InOrder is_timeout target check name "tcp" r m sound
                    (h.in_order target check);
              connections_made = λ target. omega (
                arith,
                h.connections_made target,
                same_check target name "tcp" m.requests refl,
                count_name-append target name m.tcp_connections,
              );
              lookups_made = λ target. omega (
                arith,
                h.lookups_made target,
                other_check target name "tcp" "dns" m.requests refl,
              );
            })
      ]

  probe_http-IsConsistent :
      (p : Probe is_timeout) (m : Metrics)
      → IsConsistent m
      → IsConsistent (probe_http is_timeout p m)
  unfolding probe_http count_result
  probe_http-IsConsistent p m h = elim (Bool-cases (not (str_eq p.target.http ""))) [
    | inr skipped ↦ rw skipped h
    | inl served ↦
        let r = (http_check is_timeout p.http.0 p.http.1).0 in
        let sound = http_check-IsSound is_timeout p.http.0 p.http.1 in
        let name = p.target.name in
        rw served (record {
          in_order = λ target check.
              count_result-InOrder is_timeout target check name "http" r m sound
                (h.in_order target check);
          connections_made = λ target. omega (
            arith,
            h.connections_made target,
            other_check target name "http" "tcp" m.requests refl,
          );
          lookups_made = λ target.
              omega (
                arith,
                h.lookups_made target,
                other_check target name "http" "dns" m.requests refl,
              );
        })
  ]

  probe_all-IsConsistent :
      (probes : List (Probe is_timeout)) (m : Metrics)
      → IsConsistent m
      → IsConsistent (probe_all is_timeout probes m)
  unfolding probe_all probe_target
  probe_all-IsConsistent [] m h = h
  probe_all-IsConsistent (p ∷ probes) m h =
      probe_all-IsConsistent probes _
        (probe_http-IsConsistent p _ (probe_tcp-IsConsistent p _ (probe_dns-IsConsistent p m h)))

  -- Through any rounds of checks, however they go, the metrics stay consistent: for each target and
  -- check the failures are at most the checks and the timeouts at most the failures, and for each
  -- target the connections are the TCP checks and the observed lookups the DNS checks.
  pub run-IsConsistent :
      (ticks : List (List (Probe is_timeout))) (m : Metrics)
      → IsConsistent m
      → IsConsistent (run is_timeout ticks m)
  unfolding run
  run-IsConsistent [] m h = h
  run-IsConsistent (probes ∷ ticks) m h =
      run-IsConsistent ticks (probe_all is_timeout probes m) (probe_all-IsConsistent probes m h)

pub new_metrics-IsConsistent : IsConsistent new_metrics
new_metrics-IsConsistent = record {
  in_order = λ target check. (omega arith, omega arith);
  connections_made = λ target. refl;
  lookups_made = λ target. refl;
}
