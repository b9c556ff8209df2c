-- ===== src/Connector/States.antt =====
-- The states of hex-net-core/src/connector.rs, what they need, and what a challenge does to them.
use hex_net.Common.{
  ℕ, ◌≡◌, ◌≢◌, inl, inr, sym, subst, Option, none, some, List, ltb, Bool-cases, Option-cases, take,
}
use hex_net.Connector.{
  Session, Connector, State, requesting, responding, connected, failed, closed, no_answer,
  on_challenge, challenged,
}
use hex_net.Wire.Kinds.{CloseReason}
use hex_net.Wire.Handshake.{handshake_blob, handshake_len, challenge_nonce}
use hex_net.Stats.{Ctx}
use hex_net.Fixed.Vec.{FixedVec, from_slice}
use hex_net.Connection.Queue.{max_blob}

-- The states that lead from one to another in one call.
pub data Leads : State → State → Type 0 where
  stays : {s : State} → Leads s s
  answers : Leads requesting responding
  opens : Leads responding connected
  gives_up_early : Leads requesting (failed no_answer)
  gives_up_late : Leads responding (failed no_answer)
  closes : {reason : CloseReason} → Leads connected (closed reason)

module _ {Key Rest : Type 0} where
  -- What a state needs: a challenge to answer, and a connection to pass datagrams to.
  unfoldable pub HasParts : Connector Key Rest → Type 0
  HasParts c =
      (c.state ≡ responding → c.challenge ≢ none) × (c.state ≡ connected → c.connection ≢ none)

pub some_not_none : {A : Type 0} (x : A) → some x ≢ none
some_not_none x e = absurd cc

module _ {Key Rest : Type 0} where
  -- One state leads to the other, and the parts are there.
  pub record Keeps (c c' : Connector Key Rest) : Type 0 where
    pub leads : Leads c.state c'.state
    pub parts : HasParts c'

  pub same : (c : Connector Key Rest) → HasParts c → Keeps c c
  same c parts = record { leads = stays; parts = parts }

  -- Another connection in the same state.
  pub replaced :
      (c : Connector Key Rest) (conn : Session Rest)
      → HasParts c
      → Keeps c (record c { connection = some conn })
  unfolding HasParts
  replaced c conn (has_challenge, has_conn) = record {
    leads = stays;
    parts = (has_challenge, λ e. some_not_none conn);
  }

  pub then_Keeps : (c c1 c' : Connector Key Rest) → c1.state ≡ c.state → Keeps c1 c' → Keeps c c'
  then_Keeps c c1 c' e keeps = record {
    leads = subst (λ s. Leads s c'.state) e keeps.leads;
    parts = keeps.parts;
  }

  pub challenged-Keeps :
      (c : Connector Key Rest) (ctx : Ctx) (out : List ℕ) (cookie : Option (FixedVec ℕ))
      (server_nonce : Option ℕ)
      → c.state ≡ requesting
      → HasParts c
      → Keeps c (challenged c ctx out cookie server_nonce).0
  unfolding HasParts
  challenged-Keeps c ctx out none server_nonce e parts = same c parts
  challenged-Keeps c ctx out (some cookie) none e parts = same c parts
  challenged-Keeps c ctx out (some cookie) (some server_nonce) e parts = record {
    leads = subst (λ s. Leads s responding) (sym e) answers;
    parts = (
      λ e'. some_not_none (record { cookie = cookie; server_nonce = server_nonce }),
      λ e'. absurd cc,
    );
  }

  pub on_challenge-Keeps :
      (c : Connector Key Rest) (ctx : Ctx) (buf : List ℕ) (len : ℕ) (out : List ℕ)
      → c.state ≡ requesting
      → HasParts c
      → Keeps c (on_challenge c ctx buf len out).0
  unfolding on_challenge
  on_challenge-Keeps c ctx buf len out e parts = elim (Bool-cases (ltb len handshake_len)) [
    | inl short ↦ rw short (same c parts)
    | inr long ↦ elim (Option-cases (handshake_blob (take len buf))) [
      | inl nothing ↦ rw (long, nothing) (same c parts)
      | inr (blob, found) ↦
          rw (long, found)
            (challenged-Keeps c ctx out (from_slice max_blob 0 blob)
              (challenge_nonce (take len buf)) e parts)
    ]
  ]
