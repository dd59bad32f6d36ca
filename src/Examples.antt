-- ===== src/Examples.antt =====
-- Runs of the program's functions and of its properties at concrete inputs.
mod Toys
mod Store
mod Api
mod Delivered
mod Submit
mod Prices
mod Browser
mod Order
mod Deploying
mod Returning
mod Drawing
mod Backups
mod Value
mod Toasting
