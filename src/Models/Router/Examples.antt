-- ===== src/Models/Router/Examples.antt =====
-- Routing at concrete inputs.
use vyomel.Prelude.{refl, true, false, List, [], ◌∷◌, Text, codes, All}
use vyomel.Core.Types.{sensitive}
use vyomel.Models.Router.{
  Settings, failover, Routed, mock, mock_info, build_provider, candidates, get_planner_provider,
}
use vyomel.Models.Router.Privacy.{providers_of, IsLocal, no_remote_provider}

abbrev settings : Settings
settings = record {
  planner_backend = codes "auto";
  offline = false;
  is_test = false;
  openai_api_key = codes "k";
  local_model_base_url = codes "http";
  vllm_base_url = [];
}

abbrev order : List Text
order = codes "cloud" ∷ codes "vllm" ∷ codes "local" ∷ mock ∷ []

abbrev local_first : Routed
local_first = record {
  inner = failover (record { name = codes "local"; is_remote = false } ∷ mock_info ∷ []);
  cached = false;
  accounted = true;
}

-- The cloud is preferred and passed over.
no_remote_provider_example : All IsLocal (providers_of local_first.inner)
unfolding get_planner_provider candidates build_provider
no_remote_provider_example =
    no_remote_provider settings true sensitive order local_first refl refl refl

abbrev keyless : Settings
keyless = record settings { openai_api_key = [] }
