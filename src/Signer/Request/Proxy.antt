-- ===== src/Signer/Request/Proxy.antt =====
-- Requests to a key that stands for another signer's.
use cloistr_signer.Prelude.{ℕ, String, true, some, List, ◌≡◌, refl}
use cloistr_signer.Prelude.Dict.{lookup}
use cloistr_signer.Storage.Types.{Time, Permission}
use cloistr_signer.Signer.Types.{Request, Library, Signer}
use cloistr_signer.Signer.Handle.{should_proxy_method}
use cloistr_signer.Signer.Request.{answer, handle_request}

module _ (lib : Library) (target priv client uri : String) (req : Request) (s : Signer)
    (is_proxy : lookup target s.proxy_keys ≡ some uri)
    (forwarded : should_proxy_method req.method ≡ true) where
  answer_same :
      (t u : Time) (perm perm' : Permission)
      → answer lib t u target priv client req perm s ≡ answer lib t u target priv client req perm' s
  unfolding answer
  answer_same t u perm perm' = rw (is_proxy, answer) (rw forwarded refl)

  -- What a proxy key answers to a method it forwards is the same whatever kinds of event the
  -- client's grant allows: the grant's list of kinds is not looked at.
  pub handle_request-proxy :
      (now t u : Time) (perm : Permission) (ks : List ℕ)
      → handle_request lib now t u target priv client req perm s
        ≡ handle_request lib now t u target priv client req (record perm { allowed_kinds = ks }) s
  unfolding handle_request
  handle_request-proxy now t u perm ks =
      rw (answer_same t u perm (record perm { allowed_kinds = ks })) refl
