-- ===== src/Power/Balancer/Reported.antt =====
-- The profiles of the sessions, after the charge point has reported its configuration:
-- power/capabilities.go and `sendTransactionProfile` of power/load_balancer.go.
-- Nothing is sent, or a profile for the connector whose stack level is at most `m`.
use evsys.Common.{
  All, Bool, List, String, false, if_ind, if◌then◌else◌, inl, inr, not, pos, refl, some, true, ℕ, ℤ,
  ◌&&◌, ◌++◌, ◌∷◌, ◌≡◌, ◌≤ℤ◌, ◌⊎◌,
}
use evsys.Entity.{Connector}
use evsys.Power.Balancer.{Balancer, Handler, Profile, send_transaction_profile, transaction_profile}
use evsys.Power.Capabilities.{
  Capabilities, get_capabilities, record_capabilities, stack_level_for, tx_profile_stack_level,
}
use evsys.Power.Capabilities.Reported.{
  IsOther, level_key, parse_capabilities, reported_level_respected,
}
use evsys.System.Boot.{ConfigurationKey}
use evsys.Texts.{parse_int, trim_space}

abbrev pub SendsWithin : ℕ → Connector → Balancer → Balancer → Type 0
SendsWithin m c b b' =
    (b'.sent ≡ b.sent)
    ⊎ ((p : Profile) × (b'.sent ≡ transaction_profile p ∷ b.sent)
        × (p.connector ≡ c)
        × (p.stack_level ≤ℤ pos m))

-- The balancer once the capabilities of a charge point are recorded.
abbrev pub after_report : String → Capabilities → Balancer → Balancer
after_report cp c b = record b { capabilities = (record_capabilities cp c b.capabilities).1 }

send-SendsWithin :
    (h : Handler) (m : ℕ) (c : Connector) (limit : ℤ) (retries : ℕ) (b : Balancer)
    → stack_level_for tx_profile_stack_level (get_capabilities c.charge_point_id b.capabilities)
      ≤ℤ pos m
    → SendsWithin m c b (send_transaction_profile h c limit retries b).1
unfolding send_transaction_profile
send-SendsWithin h m c limit retries b within =
    let limits = get_capabilities c.charge_point_id b.capabilities in
    let p : Profile = record {
      connector = c;
      transaction_id = c.current_transaction_id;
      limit = limit;
      stack_level = stack_level_for tx_profile_stack_level limits;
      retries_left = retries;
    } in
    let r = transaction_profile p in
    let queued : Bool × Balancer = (true, record b { sent = r ∷ b.sent }) in
    let P : Bool × Balancer → Type 0 = λ o. SendsWithin m c b o.1 in
    if_ind P (limits.known && not limits.allows_current) (false, b)
      (if h.send r then queued else (false, b)) (inl refl)
      (if_ind P (h.send r) queued (false, b) (inr (p, refl, refl, within)) (inl refl))

-- An answer that gives one highest level, a number that is not negative, among keys about other
-- things is read; once it is recorded, no profile of a session is sent to the charge point above that
-- level, whatever was recorded before. The default profile, which a boot sends, is not looked at.
pub sessions_within_reported :
    (h : Handler) (c : Connector) (limit : ℤ) (retries : ℕ) (b : Balancer)
    (earlier later : List ConfigurationKey) (value : String) (m : ℕ)
    → All IsOther earlier
    → All IsOther later
    → parse_int (trim_space value) ≡ some (pos m)
    → (reported : Capabilities) × (parse_capabilities (some (earlier ++ level_key value ∷ later))
        ≡ some reported)
      × (let b' = after_report c.charge_point_id reported b in
          SendsWithin m c b' (send_transaction_profile h c limit retries b').1)
sessions_within_reported h c limit retries b earlier later value m before after reads =
    let (reported, parses, within) =
      reported_level_respected earlier later value m before after reads in
    (
      reported,
      parses,
      send-SendsWithin h m c limit retries (after_report c.charge_point_id reported b)
          (within c.charge_point_id tx_profile_stack_level b.capabilities),
    )
