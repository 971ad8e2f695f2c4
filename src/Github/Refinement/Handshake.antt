-- ===== src/Github/Refinement/Handshake.antt =====
-- The four calls about a state of the handshake, in both stores of github.py.
use i_promise.Base.{
  ℕ, ◌≤◌, ◌≡◌, ◌≢◌, refl, sym, ap, ◌∙◌, Bool, true, false, String, Option, none, some, arith,
  string_eq,
}
use i_promise.Dict.{lookup}
use i_promise.Github.{PendingOauth}
use i_promise.Github.Memory
use i_promise.Github.Memory.{InMemoryGitHubStore, new_store, is_live, live_pending, drop_expired}
use i_promise.Github.Documents
use i_promise.Github.Documents.{
  FirestoreGitHubStore, StateDocument, install, oauth, consumed_install, consumed_oauth,
  new_database,
}
use i_promise.Github.Refinement.{
  live, live-later, install_in, oauth_in, own, StateKind, for_install, for_oauth, unissued,
  AreSeparate, Matches,
}
use i_promise.Github.Refinement.Tokens.{
  erased-agrees, inserted-agrees, erased_other-agrees, inserted_other-agrees,
}

is_some : {A : Type 0} → Option A → Bool
is_some none = false
is_some (some a) = true

-- What a consumed state answers is what is live of it.
is_live-live : (now : ℕ) (o : Option ℕ) → is_live now o ≡ is_some (live own now o)
unfolding is_some
is_live-live now none = refl
is_live-live now (some expires_at) = ground arith

consumed-live :
    (now : ℕ) (document : Option StateDocument)
    → consumed_install now document ≡ is_some (live own now (install_in document))
unfolding is_some
consumed-live now none = refl
consumed-live now (some (install expires_at)) = ground arith
consumed-live now (some (oauth installation_id verifier expires_at)) = refl

pending-live :
    (now : ℕ) (o : Option PendingOauth) → live_pending now o ≡ live PendingOauth.expires_at now o
pending-live now none = refl
pending-live now (some pending) = ground arith

consumed_oauth-live :
    (now : ℕ) (document : Option StateDocument)
    → consumed_oauth now document ≡ live PendingOauth.expires_at now (oauth_in document)
consumed_oauth-live now none = refl
consumed_oauth-live now (some (install expires_at)) = refl
consumed_oauth-live now (some (oauth installation_id verifier expires_at)) = ground arith

module _ (state_id : String → String) (kind : String → StateKind)
    (separate : AreSeparate state_id kind) where
  for_install-issued : (s : String) → kind s ≡ for_install → kind s ≢ unissued
  for_install-issued s h k = cc

  for_oauth-issued : (s : String) → kind s ≡ for_oauth → kind s ≢ unissued
  for_oauth-issued s h k = cc

  differ : (a b : String) → kind a ≡ for_install → kind b ≡ for_oauth → a ≢ b
  differ a b h k same = cc

  pub Matches-later :
      (clock now : ℕ) (m : InMemoryGitHubStore) (f : FirestoreGitHubStore)
      → clock ≤ now
      → Matches state_id kind clock m f
      → Matches state_id kind now m f
  Matches-later clock now m f le h = record {
    installs = λ s k. live-later own clock now _ _ le (h.installs s k);
    oauths = λ s k. live-later PendingOauth.expires_at clock now _ _ le (h.oauths s k);
    connections = h.connections;
    intents = h.intents;
  }

  module _ (now : ℕ) (m : InMemoryGitHubStore) (f : FirestoreGitHubStore)
      (h : Matches state_id kind now m f) where
    pub add_install_state-Matches :
        (state : String) (expires_at : ℕ)
        → kind state ≡ for_install
        → Matches state_id kind now
            (Memory.add_install_state state expires_at m)
            (Documents.add_install_state state_id state expires_at f)
    unfolding Memory.add_install_state Documents.add_install_state Documents.connection
    add_install_state-Matches state expires_at own_kind = record {
      installs = λ s k.
          inserted-agrees state_id kind separate own install_in refl now state s
            (for_install-issued state own_kind) (for_install-issued s k) m.install_states f.states
            expires_at (install expires_at) refl (h.installs s k);
      oauths = λ s k.
          inserted_other-agrees state_id kind separate PendingOauth.expires_at oauth_in refl now
            state s (for_install-issued state own_kind) (for_oauth-issued s k) m.oauth_states
            f.states (install expires_at) (differ state s own_kind k) (h.oauths s k);
      connections = h.connections;
      intents = h.intents;
    }

    pub consume_install_state-Matches :
        (state : String)
        → kind state ≡ for_install
        → ((Memory.consume_install_state now state m).0
            ≡ (Documents.consume_install_state state_id now state f).0)
          × Matches state_id kind now
              (Memory.consume_install_state now state m).1
              (Documents.consume_install_state state_id now state f).1
    unfolding Memory.consume_install_state Documents.consume_install_state Documents.connection
        drop_expired
    consume_install_state-Matches state own_kind = (
      is_live-live now (lookup state m.install_states)
          ∙ ap is_some (h.installs state own_kind)
          ∙ sym (consumed-live now (lookup (state_id state) f.states)),
      record {
        installs = λ s k.
            erased-agrees state_id kind separate own install_in refl now state s
              (for_install-issued state own_kind) (for_install-issued s k) m.install_states f.states
              (h.installs s k);
        oauths = λ s k.
            erased_other-agrees state_id kind separate PendingOauth.expires_at oauth_in refl now
              state s (for_install-issued state own_kind) (for_oauth-issued s k) m.oauth_states
              f.states (differ state s own_kind k) (h.oauths s k);
        connections = h.connections;
        intents = h.intents;
      },
    )

    pub add_oauth_state-Matches :
        (state : String) (pending : PendingOauth)
        → kind state ≡ for_oauth
        → Matches state_id kind now
            (Memory.add_oauth_state state pending m)
            (Documents.add_oauth_state state_id state pending f)
    unfolding Memory.add_oauth_state Documents.add_oauth_state Documents.connection
    add_oauth_state-Matches state pending own_kind = record {
      installs = λ s k.
          inserted_other-agrees state_id kind separate own install_in refl now state s
            (for_oauth-issued state own_kind) (for_install-issued s k) m.install_states f.states
            (oauth pending.installation_id pending.verifier pending.expires_at)
            (λ e. differ s state k own_kind (sym e)) (h.installs s k);
      oauths = λ s k.
          inserted-agrees state_id kind separate PendingOauth.expires_at oauth_in refl now state s
            (for_oauth-issued state own_kind) (for_oauth-issued s k) m.oauth_states f.states pending
            (oauth pending.installation_id pending.verifier pending.expires_at) refl (h.oauths s k);
      connections = h.connections;
      intents = h.intents;
    }

    pub consume_oauth_state-Matches :
        (state : String)
        → kind state ≡ for_oauth
        → ((Memory.consume_oauth_state now state m).0
            ≡ (Documents.consume_oauth_state state_id now state f).0)
          × Matches state_id kind now
              (Memory.consume_oauth_state now state m).1
              (Documents.consume_oauth_state state_id now state f).1
    unfolding Memory.consume_oauth_state Documents.consume_oauth_state Documents.connection
        drop_expired
    consume_oauth_state-Matches state own_kind = (
      pending-live now (lookup state m.oauth_states)
          ∙ h.oauths state own_kind
          ∙ sym (consumed_oauth-live now (lookup (state_id state) f.states)),
      record {
        installs = λ s k.
            erased_other-agrees state_id kind separate own install_in refl now state s
              (for_oauth-issued state own_kind) (for_install-issued s k) m.install_states f.states
              (λ e. differ s state k own_kind (sym e)) (h.installs s k);
        oauths = λ s k.
            erased-agrees state_id kind separate PendingOauth.expires_at oauth_in refl now state s
              (for_oauth-issued state own_kind) (for_oauth-issued s k) m.oauth_states f.states
              (h.oauths s k);
        connections = h.connections;
        intents = h.intents;
      },
    )
