-- ===== src/Compress/Choices.antt =====
-- The choice between an absolute and a differential address.
use trdb.Base.{ℕ, ◌≤◌, ◌≡◌, if◌then◌else◌, arith, Returns}
use trdb.Utils.{trdb_sign_extendable_bits}
use trdb.Compress.{differential_addr, pulp_differential_addr, quantize_clz}

-- The lead that differential_addr chooses is the number of sign-extendable bits of the address
-- that is sent, and no smaller than that of either address.
pub differential_addr_lem :
    (absolute differential : ℕ)
    → ((differential_addr absolute differential).lead
        ≡ trdb_sign_extendable_bits (
            if (differential_addr absolute differential).use_differential
            then differential
            else absolute))
      × (trdb_sign_extendable_bits absolute ≤ (differential_addr absolute differential).lead)
      × (trdb_sign_extendable_bits differential ≤ (differential_addr absolute differential).lead)
unfolding differential_addr
differential_addr_lem absolute differential = ground arith

-- pulp_differential_addr passes its assertion, and the lead it chooses is at most the number of
-- sign-extendable bits of the address that is sent.
pub pulp_differential_addr_lem :
    (absolute differential : ℕ)
    → Returns
        (λ choice.
          choice.lead
          ≤ trdb_sign_extendable_bits (if choice.use_differential then differential else absolute))
        (pulp_differential_addr absolute differential)
unfolding pulp_differential_addr quantize_clz
pulp_differential_addr_lem absolute differential = ground (arith)
