-- ===== src/Web/Client/Offline.antt =====
-- A call without a network: apps/web/src/lib/api/client.ts.
use brine_vault.Base.{ℕ, suc, ◌+◌, ◌<◌, ◌≡◌, ◌∷◌, refl, sym, ap, ◌∙◌, err, arith}
use brine_vault.Web.Client.{
  Outcome, ApiRequest, ApiClient, network_error, network_failure, api_call, on_outcome,
  attempt_loop, fetch,
}

-- When each of the next four requests fails on the network, a call ends with that failure after these
-- four requests, all with the token that the client had, and waits 2, 4 and 8 seconds between them.
pub fetch-offline :
    (network : ℕ → Outcome) (request : ApiRequest) (c : ApiClient)
    → ((i : ℕ) → i < 4 → network (i + c.next) ≡ network_error)
    → fetch network request c ≡ (
      err network_failure,
      record c {
        sent =
            api_call request c.token
            ∷ api_call request c.token
            ∷ api_call request c.token
            ∷ api_call request c.token
            ∷ c.sent;
        next = suc (suc (suc (suc c.next)));
        waits = 8000 ∷ 4000 ∷ 2000 ∷ c.waits;
      },
    )
unfolding fetch attempt_loop on_outcome
fetch-offline network request c h =
    let e0 : 0 + c.next ≡ c.next = omega arith in
    let e1 : 1 + c.next ≡ suc c.next = omega arith in
    let e2 : 2 + c.next ≡ suc (suc c.next) = omega arith in
    let e3 : 3 + c.next ≡ suc (suc (suc c.next)) = omega arith in
    let h0 : network c.next ≡ network_error = ap network (sym e0) ∙ h 0 (omega arith) in
    let h1 : network (suc c.next) ≡ network_error = ap network (sym e1) ∙ h 1 (omega arith) in
    let h2 : network (suc (suc c.next)) ≡ network_error = ap network (sym e2) ∙ h 2 (omega arith) in
    let h3 : network (suc (suc (suc c.next))) ≡ network_error =
      ap network (sym e3) ∙ h 3 (omega arith) in
    rw h0 (rw h1 (rw h2 (rw h3 refl)))
