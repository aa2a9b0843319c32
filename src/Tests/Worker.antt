-- ===== src/Tests/Worker.antt =====
-- The theorems on the worker, on the sample platform.
use notification_test.Base.{◌≤◌, some, List, [], ◌∷◌, arith}
use notification_test.Models.{Notification, delivered}
use notification_test.Worker.RowSteps.{Keeps}
use notification_test.Worker.Runs.{Call, reserves, run, sends, IsWithin, run-Keeps, sends-le}
use notification_test.Tests.Sample.{sample, settings, waiting_row, holding}

abbrev calls : List Call
calls = reserves 1 [] ∷ reserves 1 [] ∷ []

within : IsWithin sample 3 (holding waiting_row)
within j = ground arith

sends-le_example : sends settings 1 calls (holding waiting_row) ≤ 3
sends-le_example = sends-le settings 1 calls (holding waiting_row) within

abbrev delivered_row : Notification
delivered_row = record waiting_row { status = delivered; attempts = 1 }

run-Keeps_example :
    Keeps
      (some delivered_row)
      (sample.notifications.get 1 (run settings calls (holding delivered_row)).db.notifications)
run-Keeps_example = run-Keeps settings calls (holding delivered_row) 1
