-- ===== src/Tests/Spider.antt =====
-- internal/spider and internal/gitsource on a spider that was synchronised once.
use crawler_lite.Prelude.Base.{refl, false, none, some, List, [], ◌∷◌, All}
use crawler_lite.Prelude.Int.{pos}
use crawler_lite.Prelude.Text.{codes, str_eq}
use crawler_lite.Result.{ok, err, failure}
use crawler_lite.Store.{Store}
use crawler_lite.Spider.Model.{Spider}
use crawler_lite.Spider.Source.{Git, Bucket, Nodes, file, link, dir, end, more}
use crawler_lite.Spider.Service.{World}
use crawler_lite.Spider.Handlers.{CreateReq}
use crawler_lite.Spider.Uploaded.{
  Call, creates, syncs, deletes, HasSource, stored, run, run-HasSource,
}
use crawler_lite.Tests.Task

abbrev tree : Nodes
tree =
    more (dir (codes ".git") (more (link (codes "HEAD")) end))
      (more (file (codes "main.py") (ok (codes "pass"))) end)

abbrev git : Git
git = record {
  mkdir_temp = ok tt;
  clone = λ url branch. ok (record { head = ok (codes "c0ffee"); nodes = tree });
}

abbrev broken : Git
broken = record {
  mkdir_temp = ok tt;
  clone = λ url branch. err (failure (codes "authentication required"));
}

abbrev news : Spider
news = record Task.spider { git_url = codes "https://example.org/news.git" }

abbrev world : World (Store Bucket)
world = record {
  db = record {
    tables = record { rows = record { spider = news; is_deleted = false } ∷ []; next_id = 5 };
    faults = [];
  };
  now = pos 100;
  source = record { tables = (codes "k", []) ∷ []; faults = [] };
}

abbrev request : CreateReq
request = record {
  name = codes "shop";
  description = [];
  entry_module = codes "main";
  config = none;
  git_url = [];
  git_branch = [];
}

abbrev calls : List (Git × Call)
calls =
    (git, syncs (some (pos 4)))
    ∷ (git, creates (some request))
    ∷ (broken, syncs (some (pos 4)))
    ∷ (git, deletes (some (pos 4)))
    ∷ []

k-stored : HasSource world.source.tables (record { spider = news; is_deleted = false })
unfolding str_eq
k-stored = stored [] refl

run-HasSource_example :
    All
      (HasSource (run (λ l. l) calls world).source.tables)
      (run (λ l. l) calls world).db.tables.rows
run-HasSource_example = run-HasSource (λ l. l) calls world (k-stored, tt)
