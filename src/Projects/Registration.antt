-- ===== src/Projects/Registration.antt =====
-- What a registration anchors on the ledger, and what it answers.
use eco_mint.Prelude.{
  ℕ, String, Bool, true, false, not, Option, none, some, List, ◌≡◌, refl, sym, ap, ◌∙◌, subst,
  arith, if◌then◌else◌,
}
use eco_mint.Nonce.{next, Counters}
use eco_mint.Cid.Reference.{decode_cid, starts_with_one}
use eco_mint.Cid.Encoding.{IsDigest}
use eco_mint.Cid.RoundTrip.{encode_cid-decode_cid}
use eco_mint.Projects.Service.{
  Projects, Env, RawProject, ProjectResponse, project_response, response_of, build_project_response,
  register_project, ProjectError, Outcome, returns, refuse, counted, with_nonce, registered,
  register_call, register_encoded, register_pinned, register,
}

-- A registration of the digest: the call carries it, and an answer repeats the reference.
pub record IsAnchored (digest : List ℕ) (o : Outcome) : Type 0 where
  pub anchors :
      (owner methodology country : String) (bytes : List ℕ) (nonce : ℕ)
      → o.invoked ≡ some (register_project owner bytes methodology country nonce)
      → bytes ≡ digest
  pub repeats :
      (p : ProjectResponse) → o.response ≡ returns p → p.metadata_ipfs_hash ≡ decode_cid digest

built-hash :
    (env : Env) (digest : List ℕ) (read : Option RawProject) (p : ProjectResponse)
    → ((raw : RawProject) → read ≡ some raw → raw.metadata ≡ digest)
    → response_of env read ≡ some p
    → p.metadata_ipfs_hash ≡ decode_cid digest
unfolding project_response
built-hash env digest none p stored e = absurd (ground arith)
built-hash env digest (some raw) p stored e =
    let q : project_response env raw ≡ p = ground (arith, e) in
    ap (λ (x : ProjectResponse). x.metadata_ipfs_hash) (sym q) ∙ ap decode_cid (stored raw refl)

refuse-IsAnchored :
    (digest : List ℕ) (s : Projects) (e : ProjectError) → IsAnchored digest (refuse s e)
refuse-IsAnchored digest s e = record {
  anchors = λ owner methodology country bytes nonce h. absurd (ground arith);
  repeats = λ p h. absurd (ground arith);
}

registered-IsAnchored :
    (env : Env) (owner methodology country : String) (digest : List ℕ) (id nonce : ℕ) (s : Projects)
    (read : Option RawProject)
    → ((raw : RawProject) → read ≡ some raw → raw.metadata ≡ digest)
    → (built : Option ProjectResponse) → response_of env read ≡ built
    → IsAnchored digest
        (registered env (register_project owner digest methodology country nonce) id s built)
registered-IsAnchored env owner methodology country digest id nonce s read stored none e = record {
  anchors = λ o m c bytes n h. ground (arith, h);
  repeats = λ p h. absurd (ground arith);
}
registered-IsAnchored env owner methodology country digest id nonce s read stored (some built) e =
    record {
      anchors = λ o m c bytes n h. ground (arith, h);
      repeats = λ p h.
          let q : built ≡ p = ground (arith, h) in
          built-hash env digest read p stored (e ∙ ap some q);
    }

-- The ledger keeps, under the number that it gave, the bytes that were registered.
abbrev pub IsStored : Env → Option ℕ → List ℕ → Type 0
IsStored env reply digest =
    (id : ℕ) (raw : RawProject)
    → reply ≡ some id
    → env.get_project id ≡ some raw
    → raw.metadata ≡ digest

register_call-IsAnchored :
    (env : Env) (owner methodology country : String) (digest : List ℕ) (reply : Option ℕ)
    (nonce : ℕ) (s : Projects)
    → IsStored env reply digest
    → IsAnchored digest (register_call env owner methodology country digest reply nonce s)
unfolding register_call build_project_response
register_call-IsAnchored env owner methodology country digest none nonce s stored = record {
  anchors = λ o m c bytes n h. ground (arith, h);
  repeats = λ p h. absurd (ground arith);
}
register_call-IsAnchored env owner methodology country digest (some id) nonce s stored =
    registered-IsAnchored env owner methodology country digest id nonce s (env.get_project id)
      (λ raw read. stored id raw refl read) (response_of env (env.get_project id)) refl

counted-IsAnchored :
    (digest : List ℕ) (s : Projects) (body : ℕ → Projects → Outcome) (n : Counters × Option ℕ)
    → ((nonce : ℕ) (s' : Projects) → IsAnchored digest (body nonce s'))
    → IsAnchored digest (counted s body n)
counted-IsAnchored digest s body (counters, none) anchored =
    refuse-IsAnchored digest s ProjectError.service_unavailable
counted-IsAnchored digest s body (counters, some nonce) anchored =
    anchored nonce (record s { nonces = counters })

register_encoded-IsAnchored :
    (env : Env) (owner methodology country : String) (digest : List ℕ) (reply : Option ℕ)
    (s : Projects)
    → IsStored env reply digest
    → IsAnchored digest (register_encoded env owner methodology country reply s (some digest))
unfolding with_nonce
register_encoded-IsAnchored env owner methodology country digest reply s stored =
    counted-IsAnchored digest s (register_call env owner methodology country digest reply)
      (next env.redis_up env.registry owner s.nonces)
      (λ nonce s'.
        register_call-IsAnchored env owner methodology country digest reply nonce s' stored)

either-IsAnchored :
    (digest : List ℕ) (b : Bool) (x y : Outcome)
    → IsAnchored digest x
    → IsAnchored digest y
    → IsAnchored digest (if b then x else y)
either-IsAnchored digest true x y h k = h
either-IsAnchored digest false x y h k = k

-- When the metadata of a project is pinned under the reference of a digest that does not begin with the
-- byte 1, and the ledger keeps what it is given, the registration's call carries that digest, and an
-- answer to the registration names the reference under which the metadata was pinned.
pub register-IsAnchored :
    (env : Env) (boundary_ok : Bool) (digest : List ℕ) (owner methodology country : String)
    (reply : Option ℕ) (s : Projects)
    → IsDigest digest
    → starts_with_one digest ≡ false
    → IsStored env reply digest
    → IsAnchored digest
        (register env boundary_ok (some (decode_cid digest)) owner methodology country reply s)
unfolding register
register-IsAnchored env boundary_ok digest owner methodology country reply s d other stored =
    either-IsAnchored digest (not boundary_ok) (refuse s ProjectError.invalid_boundary)
      (register_pinned env owner methodology country reply s (some (decode_cid digest)))
      (refuse-IsAnchored digest s ProjectError.invalid_boundary)
      (subst
        (λ bytes. IsAnchored digest (register_encoded env owner methodology country reply s bytes))
        (sym (encode_cid-decode_cid digest d other))
        (register_encoded-IsAnchored env owner methodology country digest reply s stored))
