-- ===== src/Projects/Tests.antt =====
-- A registration, and the theorem at it.
use eco_mint.Prelude.{
  ℕ, zero, suc, ◌<◌, true, Option, none, some, List, [], ◌∷◌, refl, sym, ap, arith, All,
}
use eco_mint.Cid.Reference.{decode_cid}
use eco_mint.Projects.Service.{Projects, Env, RawProject, ProjectStatus, register}
use eco_mint.Projects.Registration.{IsAnchored, IsStored, register-IsAnchored}

abbrev sevens : ℕ → List ℕ
sevens zero = []
sevens (suc n) = 7 ∷ sevens n

sevens-small : (n : ℕ) → All (λ x. x < 256) (sevens n)
sevens-small zero = tt
sevens-small (suc n) = (omega arith, sevens-small n)

abbrev ledger : Env
ledger = record {
  redis_up = true;
  now = 100;
  now_text = "now";
  registry = "CR";
  admin_address = "GA";
  project_count = some 1;
  get_project = λ id. some (record {
    id = id;
    owner = "GO";
    metadata = sevens 32;
    status = ProjectStatus.pending;
    methodology = "VERRA-VCS";
    country = "KE";
  });
  get_content = λ hash. none;
}

abbrev no_projects : Projects
no_projects = record { projects = []; pages = []; documents = []; nonces = [] }

abbrev stored_bytes : Option RawProject → List ℕ
stored_bytes none = []
stored_bytes (some raw) = raw.metadata

sevens-IsStored : IsStored ledger (some 1) (sevens 32)
sevens-IsStored id raw given read = ap stored_bytes (sym read)

register-IsAnchored_example : IsAnchored (sevens 32) (
    register ledger true (some (decode_cid (sevens 32))) "GO" "VERRA-VCS" "KE" (some 1) no_projects)
register-IsAnchored_example =
    register-IsAnchored ledger true (sevens 32) "GO" "VERRA-VCS" "KE" (some 1) no_projects
      (record { size = refl; bytes = sevens-small 32 }) refl sevens-IsStored
