-- ===== src/WedosDns/Propagation/Tests.antt =====
-- Two name servers, of which one lags behind for three seconds.
use kajovo_cml.Prelude.{
  ℕ, ◌<◌, Bool, true, false, nat_eq, ltb, not, none, some, List, [], ◌∷◌, length, all, ◌≡◌, ◌↔◌,
  ◌⊎◌, refl, arith, ok,
}
use kajovo_cml.Security.Text.{codes}
use kajovo_cml.WedosDns.Store.{
  Observation, Snapshot, answered, network_failure, available, soa_network_failure,
}
use kajovo_cml.WedosDns.Propagation.{
  pass, provider_replica_divergence, other, Surroundings, evaluate_authoritative_txt_snapshot,
  wait_for_authoritative_txt,
}
use kajovo_cml.WedosDns.Waiting.{Passed, Failed, wait_for_authoritative_txt_ends}
use kajovo_cml.WedosDns.Agreement.{is_reached, agrees, evaluate_authoritative_txt_snapshot-pass_iff}

abbrev reply : Bool → Observation
reply present = record {
  authority = codes "ns1";
  address = codes "10.0.0.1";
  response = answered;
  soa_status = available;
  soa_serial = some (if_present present);
  expected_txt_present = some present;
}
  where
    if_present : Bool → List ℕ
    if_present true = codes "2"
    if_present false = codes "1"

abbrev unreachable : Observation
unreachable = record {
  authority = codes "ns1";
  address = codes "2001::1";
  response = network_failure;
  soa_status = soa_network_failure;
  soa_serial = none;
  expected_txt_present = none;
}

abbrev other_server : Observation
other_server = record (reply true) { authority = codes "ns2" }

abbrev snapshot_of : Bool → Snapshot
snapshot_of present = record {
  zone = codes "hcasc.cz";
  elapsed_seconds = 0;
  observations = reply present ∷ unreachable ∷ other_server ∷ [];
}

abbrev lagging : Surroundings
lagging = record {
  seen = λ now. ok (snapshot_of (not (ltb now 3000)));
  took = λ now. 20;
  overslept = λ now. 3;
}

evaluate_authoritative_txt_snapshot-pass_iff_example :
    (evaluate_authoritative_txt_snapshot (snapshot_of true) true none ≡ pass) ↔ (
      (0 < length (snapshot_of true).observations)
      × (all
            (λ o. is_reached (snapshot_of true).observations o.authority)
            (snapshot_of true).observations
          ≡ true)
      × (all (agrees true) (snapshot_of true).observations ≡ true))
evaluate_authoritative_txt_snapshot-pass_iff_example =
    evaluate_authoritative_txt_snapshot-pass_iff (snapshot_of true) true none

still_apart :
    evaluate_authoritative_txt_snapshot (snapshot_of false) true none ≡ provider_replica_divergence
unfolding evaluate_authoritative_txt_snapshot
still_apart = refl

wait_for_authoritative_txt_ends_example :
    let r = wait_for_authoritative_txt lagging true none 480000 in
    Passed lagging true none 480000 r
    ⊎ Failed lagging true none 480000
        (other (codes "wedos_dns_authoritative_propagation_unknown"))
        r
wait_for_authoritative_txt_ends_example =
    wait_for_authoritative_txt_ends lagging true none 480000 (omega arith)

wait_runs : wait_for_authoritative_txt lagging true none 480000 ≡ some (ok tt)
unfolding wait_for_authoritative_txt
wait_runs = refl
