-- ===== src/Tests/MemoryRuns.antt =====
-- A copy in a small memory, as `fail` makes one before it changes the conditions of the original.
use cabure.Base.{ℕ, zero, suc, ◌≡◌, true, false, none, some, [], ◌∷◌, arith, nat_eq, list_eq}
use cabure.Base.Int.{pos}
use cabure.Text.{codes}
use cabure.Api.Memory.{
  Cell, texts_cell, helm_cell, text_cell, conditions_cell, Heap, AppStruct, write, deep_copy_into,
  app_value,
}
use cabure.Api.Memory.Apart.{AppIsAllocated, deep_copy_into-apart}

-- A reference at 0, values files at 1, the options of Helm at 2, conditions at 3.
abbrev small_memory : ℕ → Cell
small_memory zero = text_cell (codes "git")
small_memory (suc zero) = texts_cell (codes "values.yaml" ∷ [])
small_memory (suc (suc zero)) =
    helm_cell (record { release_name = codes "shop"; values_files = some 1; include_crds = true })
small_memory _ = conditions_cell []

abbrev small_heap : Heap
small_heap = record { cells = small_memory; next = 4 }

abbrev shop : AppStruct
shop = record {
  spec = record {
    repository = codes "https://git.example/shop";
    revision = codes "main";
    path = codes "deploy";
    secret_ref = some 0;
    destination_namespace = codes "prod";
    render_type = codes "helm";
    helm = some 2;
    allowed_cluster_scoped_kinds = none;
    takeover_existing_resources = false;
    interval = pos 60;
    prune = true;
    suspend = false;
  };
  status = record {
    observed_generation = 1;
    attempted_revision = [];
    applied_revision = [];
    last_attempt_time = none;
    last_success_time = none;
    inventory = none;
    conditions = some 3;
  };
}

shop-IsAllocated : AppIsAllocated small_heap shop
shop-IsAllocated = record {
  spec = record { secret = omega arith; helm = (omega arith, omega arith); kinds = tt };
  status = record { attempt = tt; success = tt; inventory = tt; conditions = omega arith };
}

deep_copy_into-apart_example :
    (app_value (deep_copy_into shop small_heap).1 (deep_copy_into shop small_heap).0
      ≡ app_value small_heap shop)
    × (app_value
          (write (deep_copy_into shop small_heap).1 3 (texts_cell []))
          (deep_copy_into shop small_heap).0
        ≡ app_value small_heap shop)
    × (app_value (write (deep_copy_into shop small_heap).1 5 (texts_cell [])) shop
        ≡ app_value small_heap shop)
deep_copy_into-apart_example =
    deep_copy_into-apart small_heap shop 3 5 (texts_cell []) shop-IsAllocated (omega arith)
      (omega arith)
